-- ===== src/Allocation/Refill/Json.antt =====
-- refill_rule.py: `to_dict` and `from_dict`. The dict holds text only, as the one that `to_dict` makes;
-- `str` and `Decimal` of a text are parameters, since they belong to Python's decimal module.
use tulip_accounting.Prelude.{String, Option, none, some, [], ◌∷◌, str_eq, if◌then◌else◌}
use tulip_accounting.Prelude.Dict.{Dict, lookup, insert}
use tulip_accounting.Prelude.Results.{Error, Result, ok, err, ◌>>=◌}
use tulip_accounting.Decimal.{Decimal}
use tulip_accounting.Money.{Money, money}
use tulip_accounting.Allocation.{RefillStrategy, RefillRule, check_refill_rule}

-- `strategy.value`
unfoldable pub strategy_value : RefillStrategy → String
strategy_value RefillStrategy.fixed_amount = "fixed_amount"
strategy_value RefillStrategy.fill_to_amount = "fill_to_amount"
strategy_value RefillStrategy.percentage_of_income = "percentage_of_income"

-- `RefillStrategy(text)`
unfoldable pub strategy_of : String → Result RefillStrategy
strategy_of t =
    if str_eq t "fixed_amount"
    then ok RefillStrategy.fixed_amount
    else if str_eq t "fill_to_amount"
    then ok RefillStrategy.fill_to_amount
    else if str_eq t "percentage_of_income"
    then ok RefillStrategy.percentage_of_income
    else err Error.bad_value

-- `data[key]`
abbrev pub item : String → Dict String → Result String
item k entries = elim (lookup k entries) [ none ↦ err Error.key_error | some v ↦ ok v ]

module _ (to_text : Decimal → String) (of_text : String → Option Decimal) where
  -- The entries that `to_dict` adds for the amount, and for the percentage.
  abbrev pub put_amount : Option Money → Dict String → Dict String
  put_amount none out = out
  put_amount (some m) out = insert "currency" m.currency (insert "amount" (to_text m.amount) out)

  abbrev pub put_percentage : Option Decimal → Dict String → Dict String
  put_percentage none out = out
  put_percentage (some d) out = insert "percentage" (to_text d) out

  -- `to_dict`
  unfoldable pub to_dict : RefillRule → Dict String
  to_dict r =
      put_percentage r.percentage
        (put_amount r.amount (("strategy", strategy_value r.strategy) ∷ []))

  -- `Decimal(text)`, which raises on a text that is no number.
  abbrev pub read_decimal : String → Result Decimal
  read_decimal t = elim (of_text t) [ none ↦ err Error.invalid_decimal | some d ↦ ok d ]

  -- The amount and the percentage of a dict, if it has them.
  abbrev pub read_amount : Dict String → Result (Option Money)
  read_amount entries = elim (lookup "amount" entries) [
    | none ↦ ok none
    | some t ↦ do d ← read_decimal t; c ← item "currency" entries; m ← money d c; ok (some m)
  ]

  abbrev pub read_percentage : Dict String → Result (Option Decimal)
  read_percentage entries = elim (lookup "percentage" entries) [
    | none ↦ ok none
    | some t ↦ do d ← read_decimal t; ok (some d)
  ]

  -- `from_dict`
  unfoldable pub from_dict : Dict String → Result RefillRule
  from_dict entries = do
    name ← item "strategy" entries
    strategy ← strategy_of name
    amount ← read_amount entries
    percentage ← read_percentage entries
    check_refill_rule (record { strategy = strategy; amount = amount; percentage = percentage })
