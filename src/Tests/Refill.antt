-- ===== src/Tests/Refill.antt =====
-- The stored form of two refill rules, and the witness.
use tulip_accounting.Prelude.{
  ◌≡◌, refl, ◌==◌, String, str_eq, Option, none, some, [], ◌∷◌, if◌then◌else◌,
}
use tulip_accounting.Prelude.Int.{pos}
use tulip_accounting.Prelude.Results.{Error, err}
use tulip_accounting.Decimal.{Decimal}
use tulip_accounting.Allocation.{RefillRule, RefillStrategy}
use tulip_accounting.Allocation.Refill.Json.{to_dict, from_dict, strategy_of, strategy_value}
use tulip_accounting.Tests.Data.{decimal, usd}

-- The two decimals of the rules, and their texts.
abbrev to_text : Decimal → String
to_text d = if d.places == 2 then "50.00" else "0.125"

abbrev of_text : String → Option Decimal
of_text t =
    if str_eq t "50.00"
    then some (decimal (pos 5000) 2)
    else if str_eq t "0.125"
    then some (decimal (pos 125) 3)
    else none

abbrev top_up : RefillRule
top_up = record {
  strategy = RefillStrategy.fill_to_amount;
  amount = some (usd (pos 5000));
  percentage = none;
}

stored_top_up :
    to_dict to_text of_text top_up
    ≡ ("strategy", "fill_to_amount") ∷ ("amount", "50.00") ∷ ("currency", "USD") ∷ []
unfolding to_dict strategy_value
stored_top_up = refl

unknown_strategy : from_dict to_text of_text (("strategy", "all_of_it") ∷ []) ≡ err Error.bad_value
unfolding from_dict strategy_of
unknown_strategy = refl
