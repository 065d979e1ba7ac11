-- ===== src/Account.antt =====
-- tulip_core/account/account.py: an account record and its constructor's checks.
use tulip_accounting.Prelude.{
  ℕ, Bool, false, not, ◌||◌, String, Option, none, some, ◌&&◌, str_eq, leb, ◌==◌, all_of,
}
use tulip_accounting.Prelude.Results.{Error, Result, ok, raise_if, ◌>>◌}
use tulip_accounting.Currency.{from_code, codes}
use tulip_accounting.Transactions.{Uuid}

-- `AccountType`
pub data AccountType : Type 0 where
  asset liability equity income expense : AccountType

pub record Account : Type 0 where
  pub id : Uuid
  pub code : Option String
  pub name : String
  pub kind : AccountType
  pub currency : String
  pub parent_id : Option Uuid

-- `str.isspace` of one character.
unfoldable pub is_space : ℕ → Bool
is_space c =
    leb 9 c && leb c 13
    || leb 28 c && leb c 32
    || c == 0x85
    || c == 0xa0
    || c == 0x1680
    || leb 0x2000 c && leb c 0x200a
    || c == 0x2028
    || c == 0x2029
    || c == 0x202f
    || c == 0x205f
    || c == 0x3000

-- `not s or not s.strip()`: there is nothing in the text but white space.
unfoldable pub is_blank : String → Bool
unfolding is_space
is_blank s = all_of is_space (codes s)

-- `any(ch.isspace() for ch in s)`
unfoldable pub has_space : String → Bool
unfolding is_space
has_space s = not (all_of (λ c. not (is_space c)) (codes s))

abbrev bad_code : Option String → Bool
bad_code none = false
bad_code (some s) = str_eq s "" || has_space s

-- `Account.__post_init__`
unfoldable pub check_account : Account → Result Account
unfolding has_space
check_account a = do
  from_code a.currency
  raise_if (bad_code a.code) Error.invalid_account_code
  ok a

-- `Account.__eq__`
abbrev pub account_eq : Account → Account → Bool
account_eq a b = a.id == b.id
