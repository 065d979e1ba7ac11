-- ===== src/Storage/Ledger/Calls.antt =====
-- Sequences of writes of `TransactionRepository` in one session: a call that raises is rolled back.
use tulip_accounting.Prelude.{ℕ, String, Option, List, [], ◌∷◌}
use tulip_accounting.Prelude.Results.{Result, ok, err, ◌>>=◌}
use tulip_accounting.Transactions.{Uuid, Date, Posting, Transaction}
use tulip_accounting.Storage.Rows.{Db}
use tulip_accounting.Storage.Ledger.{
  Repository, Patch, save_balanced, persist_reversal, delete_pending,
}
use tulip_accounting.Storage.Ledger.Edits.{update_pending, rectify_posted}

pub data Call : Type 0 where
  saving : Transaction → Option Uuid → Option String → ℕ → Call
  reversing : Uuid → Transaction → ℕ → ℕ → Call
  deleting : Uuid → Call
  editing : Uuid → Date → String → Option String → List Posting → Patch (Option String) → Call
  rectifying : Uuid → Patch String → Patch (Option String) → Patch (Option String) → Call

module _ (encrypt : String → Uuid → Uuid → String → String) where
  unfoldable pub perform : Repository → Call → Db → Result Db
  perform repo (saving tx imported notes now) db = do
    r ← save_balanced encrypt repo tx imported notes now db
    ok r.1
  perform repo (reversing source reversal voided_at now) db = do
    r ← persist_reversal encrypt repo source reversal voided_at now db
    ok r.1
  perform repo (deleting id) db = delete_pending encrypt repo id db
  perform repo (editing id date description reference postings notes) db = do
    r ← update_pending encrypt repo id date description reference postings notes db
    ok r.1
  perform repo (rectifying id description reference notes) db = do
    r ← rectify_posted encrypt repo id description reference notes db
    ok r.2

  abbrev pub committed : Result Db → Db → Db
  committed (ok after) db = after
  committed (err e) db = db

  unfoldable pub perform_all : Repository → List Call → Db → Db
  perform_all repo [] db = db
  perform_all repo (c ∷ cs) db = perform_all repo cs (committed (perform repo c db) db)
