-- ===== src/Tests/Requests.antt =====
-- Requests that create and void a transaction with envelopes.
use tulip_accounting.Prelude.{
  ℕ, ◌+◌, ◌*◌, ◌≡◌, refl, true, false, String, none, some, List, [], ◌∷◌,
}
use tulip_accounting.Prelude.Int.{pos, negsuc, ◌+ℤ◌, ◌*ℤ◌, -ℤ◌, times_ten}
use tulip_accounting.Prelude.Results.{Error, err, is_ok}
use tulip_accounting.Decimal.{quantize, add, neg, mul, shift}
use tulip_accounting.Currency.{from_code}
use tulip_accounting.Account.{AccountType}
use tulip_accounting.Periods.{Period, PeriodStatus}
use tulip_accounting.Transactions.{Uuid, is_balanced}
use tulip_accounting.Allocation.{PoolType}
use tulip_accounting.Storage.Ledger.{Repository}
use tulip_accounting.Storage.Budget.{PoolRow}
use tulip_accounting.Storage.Triggers.{is_balanced_in}
use tulip_accounting.Storage.Budget.Triggers.{is_shadow_balanced_in}
use tulip_accounting.Services.Transactions.{
  AccountRow, TransactionCreate, Session, Draws, create_transaction,
}
use tulip_accounting.Services.Transactions.Ledgers.{
  AreBalanced, Request, creating, voiding, serve_all, serve_all-AreBalanced,
}
use tulip_accounting.Tests.Data.{decimal, month}

abbrev plain : String → Uuid → Uuid → String → String
plain key household_id row text = text

abbrev repo : Repository
repo = record { household_id = 1; master_key = none }

-- The bank account 10, and account 20 for expenses.
abbrev accounts : List AccountRow
accounts =
    record { household_id = 1; id = 10; kind = AccountType.asset; is_placeholder = false }
    ∷ record { household_id = 1; id = 20; kind = AccountType.expense; is_placeholder = false }
    ∷ []

abbrev food : PoolRow
food = record {
  household_id = 1;
  id = 31;
  pool_type = PoolType.envelope;
  name = "Food";
  visibility = "shared";
  currency = "USD";
  is_active = true;
  is_system = false;
  created_by_user_id = none;
}

abbrev empty : Session
empty = record {
  db = record { headers = []; postings = []; lines = []; matches = []; reconciliations = [] };
  budget = record { shadow_headers = []; shadow_rows = []; pools = food ∷ []; envelopes = [] };
}

abbrev draws : ℕ → Draws
draws k = record {
  tx_id = k * 100;
  posting_ids = λ i. k * 100 + 1 + i;
  pool_ids = λ j i. k * 100 + 20 + i;
  leg_ids = λ i. k * 100 + 40 + i;
  now = k;
}

-- 12.50 USD of groceries.
abbrev shop : TransactionCreate
shop = record {
  date = 738_010;
  description = "Corner shop";
  reference = none;
  notes = none;
  postings =
      record {
        account_id = 20;
        amount = decimal (pos 1250) 2;
        currency = "USD";
        memo = none;
        pool_id = some 31;
      }
      ∷ record {
        account_id = 10;
        amount = decimal (negsuc 1249) 2;
        currency = "USD";
        memo = none;
        pool_id = none;
      }
      ∷ [];
}

abbrev periods : List Period
periods = month PeriodStatus.opened ∷ []

created : is_ok (create_transaction plain repo accounts periods 7 (draws 1) shop empty) ≡ true
unfolding create_transaction is_balanced is_balanced_in is_shadow_balanced_in add neg mul shift
    times_ten ◌+ℤ◌ ◌*ℤ◌ -ℤ◌ from_code quantize
created = refl

-- In a closed period nothing is created.
closed :
    create_transaction plain repo accounts
      (month PeriodStatus.soft_closed ∷ [])
      7
      (draws 1)
      shop
      empty
    ≡ err Error.closed_period
unfolding create_transaction is_balanced add neg mul shift times_ten ◌+ℤ◌ ◌*ℤ◌ -ℤ◌ from_code
closed = refl

-- The transaction is created, voided, and voided once more.
abbrev requests : List Request
requests =
    creating (draws 1) shop
    ∷ voiding (draws 2) 100 738_011 "mistake"
    ∷ voiding (draws 3) 100 738_012 "again"
    ∷ []

serve_all-AreBalanced_example : AreBalanced (serve_all plain repo accounts periods 7 requests empty)
serve_all-AreBalanced_example =
    serve_all-AreBalanced plain repo accounts periods 7 requests empty (tt, (tt, tt))
