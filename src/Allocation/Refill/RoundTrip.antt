-- ===== src/Allocation/Refill/RoundTrip.antt =====
-- The round trip of refill rules through the dict that is stored as JSON.
use tulip_accounting.Prelude.{◌≡◌, refl, String, Option, none, some}
use tulip_accounting.Prelude.Results.{ok}
use tulip_accounting.Decimal.{Decimal}
use tulip_accounting.Money.{Money, money}
use tulip_accounting.Allocation.{RefillStrategy, RefillRule, check_refill_rule}
use tulip_accounting.Allocation.Refill.Json.{
  strategy_value, strategy_of, read_decimal, to_dict, from_dict,
}

strategy_of-strategy_value : (s : RefillStrategy) → strategy_of (strategy_value s) ≡ ok s
unfolding strategy_of strategy_value
strategy_of-strategy_value RefillStrategy.fixed_amount = refl
strategy_of-strategy_value RefillStrategy.fill_to_amount = refl
strategy_of-strategy_value RefillStrategy.percentage_of_income = refl

module _ (to_text : Decimal → String) (of_text : String → Option Decimal) where
  -- The text of a decimal is read as that decimal.
  abbrev pub IsReadable : Option Decimal → Type 0
  IsReadable none = Unit
  IsReadable (some d) = of_text (to_text d) ≡ some d

  -- An amount that the constructor of Money accepts, whose text is read as it.
  abbrev pub IsStorable : Option Money → Type 0
  IsStorable none = Unit
  IsStorable (some m) = IsReadable (some m.amount) × (money m.amount m.currency ≡ ok m)

  stored :
      (s : RefillStrategy) (a : Option Money) (p : Option Decimal)
      → IsStorable a
      → IsReadable p
      → from_dict to_text of_text
          (to_dict to_text of_text (record { strategy = s; amount = a; percentage = p }))
        ≡ check_refill_rule (record { strategy = s; amount = a; percentage = p })
  unfolding from_dict to_dict
  stored s none none a p = rw (strategy_of-strategy_value s) refl
  stored s none (some d) a p = rw (strategy_of-strategy_value s, read_decimal, p) refl
  stored s (some m) none a p = rw (strategy_of-strategy_value s, read_decimal, a.0, a.1) refl
  stored s (some m) (some d) a p = rw (strategy_of-strategy_value s, read_decimal, a.0, a.1, p) refl

  -- A rule that its constructor accepted is read back from the dict that it is written to, if the
  -- decimals in it are read back from their texts and its amount is a valid Money.
  pub from_dict-to_dict :
      (r : RefillRule)
      → check_refill_rule r ≡ ok r
      → IsStorable r.amount
      → IsReadable r.percentage
      → from_dict to_text of_text (to_dict to_text of_text r) ≡ ok r
  from_dict-to_dict r h a p = rw (stored r.strategy r.amount r.percentage a p) h
