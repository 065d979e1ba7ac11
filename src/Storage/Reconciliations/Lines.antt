-- ===== src/Storage/Reconciliations/Lines.antt =====
-- repositories/statement_line.py
use tulip_accounting.Prelude.{
  ℕ, ◌+◌, Bool, true, false, not, ◌&&◌, String, Option, none, some, List, [], ◌∷◌, ◌==◌, leb, keep,
  if◌then◌else◌,
}
use tulip_accounting.Prelude.Results.{Result, ok, ◌>>=◌}
use tulip_accounting.Decimal.{Decimal}
use tulip_accounting.Transactions.{Uuid, Date}
use tulip_accounting.Storage.Tables.{find, update}
use tulip_accounting.Storage.Rows.{stored, Db, LineRow, is_line}
use tulip_accounting.Storage.Ledger.{or_not_found}

-- `order_by(StatementLine.line_number)`
abbrev by_number : LineRow → List LineRow → List LineRow
by_number l [] = l ∷ []
by_number l (k ∷ ks) = if leb l.line_number k.line_number then l ∷ k ∷ ks else k ∷ by_number l ks

abbrev pub in_order : List LineRow → List LineRow
in_order [] = []
in_order (l ∷ ls) = by_number l (in_order ls)

-- `list_for_batch`
abbrev pub list_for_batch : Uuid → Uuid → Db → List LineRow
list_for_batch household_id batch_id db =
    in_order (keep (λ l. l.household_id == household_id && l.import_batch_id == batch_id) db.lines)

abbrev pub is_unmatched : LineRow → Bool
is_unmatched l = elim l.reconciliation_match_id [ none ↦ not l.is_excluded | some m ↦ false ]

-- `list_unmatched`
abbrev pub list_unmatched : Uuid → Uuid → Db → List LineRow
list_unmatched household_id batch_id db = in_order (
    keep (λ l. l.household_id == household_id && l.import_batch_id == batch_id && is_unmatched l)
      db.lines)

-- What `bulk_insert` is given for one line.
pub record ParsedRow : Type 0 where
  pub line_number : ℕ
  pub posted_date : Date
  pub amount : Decimal
  pub currency : String
  pub description : String
  pub counterparty : Option String
  pub reference : Option String
  pub fitid : Option String

-- `bulk_insert`; the k-th row has the k-th fresh identifier.
unfoldable pub bulk_insert : Uuid → Uuid → (ℕ → Uuid) → ℕ → List ParsedRow → List LineRow
bulk_insert household_id batch_id fresh k [] = []
bulk_insert household_id batch_id fresh k (r ∷ rs) =
    record {
      household_id = household_id;
      id = fresh k;
      import_batch_id = batch_id;
      line_number = r.line_number;
      posted_date = r.posted_date;
      amount = stored r.amount;
      currency = r.currency;
      description = r.description;
      counterparty = r.counterparty;
      reference = r.reference;
      fitid = r.fitid;
      is_excluded = false;
      reconciliation_match_id = none;
      promoted_transaction_id = none;
    }
    ∷ bulk_insert household_id batch_id fresh (k + 1) rs

-- The three writes to a line: `exclude`, `unexclude` and `mark_promoted`.
pub data LineEdit : Type 0 where
  exclude unexclude : LineEdit
  mark_promoted : Uuid → LineEdit

abbrev pub edit_line : LineEdit → LineRow → LineRow
edit_line exclude l = record l { is_excluded = true }
edit_line unexclude l = record l { is_excluded = false }
edit_line (mark_promoted tx_id) l = record l { promoted_transaction_id = some tx_id }

unfoldable pub write_line : Uuid → Uuid → LineEdit → Db → Result Db
write_line household_id line_id edit db = do
  line ← or_not_found (find (is_line household_id line_id) db.lines)
  ok (record db { lines = update (is_line household_id line_id) (edit_line edit) db.lines })
