-- ===== src/Currency.antt =====
-- tulip_core/currency/currency.py: the table of minor units and the checked lookup by code.
use Prim.Native.Char.{code}
use tulip_accounting.Prelude.{
  ℕ, ◌≡◌, refl, Bool-cases, inl, inr, Bool, true, not, ◌&&◌, String, List, [], ◌∷◌, Option, none,
  some, leb, ◌==◌, all_of, length,
}
use tulip_accounting.Prelude.Results.{Error, Result, ok, err, raise_if, is_ok, ◌>>◌}
use tulip_accounting.Prelude.Dict.{Dict, lookup}

-- The code points of a text. `String` has its own `[]` and `∷`.
abbrev pub codes : String → List ℕ
codes String.[] = []
codes (String.◌∷◌ c s) = code c ∷ codes s

-- `_MINOR_UNITS`
unfoldable pub minor_unit_table : Dict ℕ
minor_unit_table =
    ("USD", 2)
    ∷ ("EUR", 2)
    ∷ ("GBP", 2)
    ∷ ("JPY", 0)
    ∷ ("CAD", 2)
    ∷ ("AUD", 2)
    ∷ ("CHF", 2)
    ∷ ("CNY", 2)
    ∷ ("BHD", 3)
    ∷ []

-- `Currency`
pub record Currency : Type 0 where
  pub code : String
  pub minor_units : ℕ

abbrev is_ascii_upper : ℕ → Bool
is_ascii_upper c = leb b'A' c && leb c b'Z'

-- Three letters, all ASCII and upper case.
unfoldable pub is_well_formed : String → Bool
is_well_formed s = length (codes s) == 3 && all_of is_ascii_upper (codes s)

-- `_intern`: the cache hands out one instance for each code, so only its fields matter.
abbrev intern : Option ℕ → String → Result Currency
intern (some digits) s = ok (record { code = s; minor_units = digits })
intern none s = err Error.unknown_currency

-- `Currency.from_code`
unfoldable pub from_code : String → Result Currency
unfolding is_well_formed minor_unit_table
from_code s = do
  raise_if (not (is_well_formed s)) Error.invalid_currency_code
  intern (lookup s minor_unit_table) s

-- A code that is accepted gives the currency with the table's minor units.
pub from_code_ok :
    (c : String) {digits : ℕ}
    → is_ok (from_code c) ≡ true
    → lookup c minor_unit_table ≡ some digits
    → from_code c ≡ ok (record { code = c; minor_units = digits })
unfolding from_code
from_code_ok c h e = elim (Bool-cases (is_well_formed c)) [
  | inl w ↦ rw (w, e) refl
  | inr n ↦ absurd (let f = rw n at h in cc)
]
