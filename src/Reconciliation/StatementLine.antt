-- ===== src/Reconciliation/StatementLine.antt =====
-- statement_line.py: the lines that importers parse, and the lines that are stored.
-- A `Mapping[str, str]` is the list of its entries; freezing it against mutation has no counterpart.
use tulip_accounting.Prelude.{ℕ, ◌≡◌, refl, arith, not, String, Option, List, all_of, ltb, str_eq}
use tulip_accounting.Prelude.Results.{Error, Result, ok, raise_if, ◌>>◌}
use tulip_accounting.Account.{is_blank}
use tulip_accounting.Money.{Money}
use tulip_accounting.Transactions.{Uuid, Date}

-- `_validate_common`
unfoldable pub validate_common : ℕ → String → Result (Unit {0})
validate_common line_number description = do
  raise_if (ltb line_number 1) Error.bad_line_number
  raise_if (is_blank description) Error.empty_description

pub record ParsedSplit : Type 0 where
  pub amount : Money
  pub category : String
  pub memo : Option String
  pub tags : List String

-- `ParsedSplit.__post_init__`
unfoldable pub check_split : ParsedSplit → Result ParsedSplit
check_split s = do raise_if (is_blank s.category) Error.empty_category; ok s

pub record ParsedStatementLine : Type 0 where
  pub line_number : ℕ
  pub posted_date : Date
  pub amount : Money
  pub description : String
  pub raw : List (String × String)
  pub counterparty : Option String
  pub reference : Option String
  pub fitid : Option String
  pub splits : List ParsedSplit
  pub tags : List String

-- `ParsedStatementLine.__post_init__`
unfoldable pub check_parsed_line : ParsedStatementLine → Result ParsedStatementLine
unfolding validate_common
check_parsed_line l = do
  validate_common l.line_number l.description
  raise_if (not (all_of (λ s. str_eq s.amount.currency l.amount.currency) l.splits))
      Error.split_currency_mismatch
  ok l

pub record StatementLine : Type 0 where
  pub id : Uuid
  pub import_batch_id : Uuid
  pub line_number : ℕ
  pub posted_date : Date
  pub amount : Money
  pub description : String
  pub raw : List (String × String)
  pub counterparty : Option String
  pub reference : Option String
  pub fitid : Option String

-- `StatementLine.__post_init__`
unfoldable pub check_line : StatementLine → Result StatementLine
unfolding validate_common
check_line l = do validate_common l.line_number l.description; ok l

-- `ParsedStatementLine.with_persistence_ids`
unfoldable pub with_persistence_ids : ParsedStatementLine → Uuid → Uuid → Result StatementLine
unfolding check_line
with_persistence_ids l id batch = check_line (record {
  id = id;
  import_batch_id = batch;
  line_number = l.line_number;
  posted_date = l.posted_date;
  amount = l.amount;
  description = l.description;
  raw = l.raw;
  counterparty = l.counterparty;
  reference = l.reference;
  fitid = l.fitid;
})

-- A parsed line that was accepted is always stored, under the given identifiers and with its number,
-- date, amount, description and other shared fields kept.
pub with_persistence_ids_ok :
    (l : ParsedStatementLine) (id batch : Uuid)
    → check_parsed_line l ≡ ok l
    → (s : StatementLine) × (with_persistence_ids l id batch ≡ ok s)
      × (check_line s ≡ ok s)
      × ((s.id ≡ id) × (s.import_batch_id ≡ batch) × (s.line_number ≡ l.line_number))
      × ((s.posted_date ≡ l.posted_date) × (s.amount ≡ l.amount) × (s.description ≡ l.description))
      × ((s.raw ≡ l.raw)
          × (s.counterparty ≡ l.counterparty)
          × (s.reference ≡ l.reference)
          × (s.fitid ≡ l.fitid))
unfolding with_persistence_ids check_parsed_line
with_persistence_ids_ok l id batch h =
    let s : StatementLine = record {
      id = id;
      import_batch_id = batch;
      line_number = l.line_number;
      posted_date = l.posted_date;
      amount = l.amount;
      description = l.description;
      raw = l.raw;
      counterparty = l.counterparty;
      reference = l.reference;
      fitid = l.fitid;
    } in
    (
      s,
      ground arith,
      ground arith,
      (refl, refl, refl),
      (refl, refl, refl),
      (refl, refl, refl, refl),
    )
