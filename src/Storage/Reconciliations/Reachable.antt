-- ===== src/Storage/Reconciliations/Reachable.antt =====
-- Sequences of writes around reconciliations, as a step relation, and what they keep.
use tulip_accounting.Prelude.{
  ℕ, ◌≡◌, refl, subst, false, String, Option, none, some, List, ◌++◌, All-append, ltb,
}
use tulip_accounting.Prelude.Results.{Error, ok, ◌>>=◌, raise_if-Ensures, Ensures-ok}
use tulip_accounting.Decimal.{Decimal}
use tulip_accounting.Transactions.{Uuid, Date}
use tulip_accounting.Storage.Tables.{find, exists, All-update}
use tulip_accounting.Storage.Rows.{Db, MatchRow, Reconciliation, is_match, is_line}
use tulip_accounting.Storage.Ledger.{or_not_found}
use tulip_accounting.Storage.Reconciliations.{
  create, complete, abandon, revert, write_carry_forward, create_match, stored_match, reject,
}
use tulip_accounting.Storage.Reconciliations.Lines.{
  LineEdit, edit_line, write_line, ParsedRow, bulk_insert,
}
use tulip_accounting.Storage.Reconciliations.Pointers.{
  IsLinked, AreLinked, create_match-AreLinked, reject-AreLinked, revert-AreLinked,
  bulk_insert-IsLinked, edit_line-IsLinked,
}

-- One write of the repositories; a new match has an identifier that is not taken.
pub data Step : Db → Db → Type 0 where
  opens :
      {db after : Db} {recon : Reconciliation} (household_id id account : Uuid) (from to : Date)
      (starting ending : Decimal) (currency : String) (batch user : Option Uuid) (now : ℕ)
      → create household_id id account from to starting ending currency batch user now db
        ≡ ok (recon, after)
      → Step db after
  matches_line :
      {db : Db} (m : MatchRow)
      → exists (is_match m.household_id m.id) db.matches ≡ false
      → Step db (create_match m db)
  rejects :
      {db after : Db} (household_id match_id : Uuid)
      → reject household_id match_id db ≡ ok after
      → Step db after
  completes :
      {db after : Db} (household_id id : Uuid) (now : ℕ)
      → complete household_id id now db ≡ ok after
      → Step db after
  abandons :
      {db after : Db} (household_id id : Uuid)
      → abandon household_id id db ≡ ok after
      → Step db after
  reverts :
      {db after : Db} (household_id id : Uuid)
      → revert household_id id db ≡ ok after
      → Step db after
  carries :
      {db after : Db} (household_id tx_id : Uuid) (link : Option Uuid)
      → write_carry_forward household_id tx_id link db ≡ ok after
      → Step db after
  edits_line :
      {db after : Db} (household_id line_id : Uuid) (edit : LineEdit)
      → write_line household_id line_id edit db ≡ ok after
      → Step db after
  imports :
      {db : Db} (household_id batch_id : Uuid) (fresh : ℕ → Uuid) (rows : List ParsedRow)
      → Step db (record db { lines = db.lines ++ bulk_insert household_id batch_id fresh 0 rows })

pub data Reach (start : Db) : Db → Type 0 where
  here : Reach start start
  next : {db after : Db} → Reach start db → Step db after → Reach start after

-- A call that needs a row and succeeded found one.
found_row {ℓ} :
    {A : Type ℓ} (o : Option A) (f : A → Db) (after : Db)
    → (or_not_found o >>= λ a. ok (f a)) ≡ ok after
    → (a : A) × (o ≡ some a) × (f a ≡ after)
found_row none f after e = absurd (cc e)
found_row (some a) f after e = (a, refl, cc e)

Step-AreLinked : {db after : Db} → Step db after → AreLinked db → AreLinked after
unfolding create complete abandon revert write_carry_forward create_match reject write_line
Step-AreLinked {db} {after}
      (opens {recon} household_id id account from to starting ending currency batch user now e)
      linked =
    Ensures-ok (λ r. AreLinked r.1)
      (create household_id id account from to starting ending currency batch user now db)
      (recon, after)
      (raise_if-Ensures (λ r. AreLinked r.1) (ltb to from) Error.inverted_period _
        (λ passed. linked))
      e
Step-AreLinked {db} (matches_line m new) linked =
    create_match-AreLinked (stored_match m) m.statement_line_id db.lines db.matches refl new linked
Step-AreLinked {db} {after} (rejects household_id match_id e) linked =
    let (m, found, same) = found_row (find (is_match household_id match_id) db.matches) _ after e in
    subst AreLinked same (
      reject-AreLinked household_id match_id m m.statement_line_id db.lines db.matches refl found
        linked)
Step-AreLinked {db} {after} (completes household_id id now e) linked =
    subst AreLinked (found_row _ _ after e).2 linked
Step-AreLinked {db} {after} (abandons household_id id e) linked =
    subst AreLinked (found_row _ _ after e).2 linked
Step-AreLinked {db} {after} (reverts household_id id e) linked =
    subst AreLinked (found_row _ _ after e).2 (revert-AreLinked household_id id db linked)
Step-AreLinked {db} {after} (carries household_id tx_id link e) linked =
    subst AreLinked (found_row _ _ after e).2 linked
Step-AreLinked {db} {after} (edits_line household_id line_id edit e) linked =
    subst AreLinked (found_row _ _ after e).2 (
      All-update (is_line household_id line_id) (edit_line edit) db.lines
        (λ l old own. edit_line-IsLinked edit db.matches l old) (λ l old miss. old) linked)
Step-AreLinked {db} (imports household_id batch_id fresh rows) linked =
    All-append (IsLinked db.matches) db.lines _ linked
      (bulk_insert-IsLinked household_id batch_id fresh 0 rows db.matches)

-- Whatever reconciliations are opened, completed, abandoned and reverted, whatever lines are
-- imported and edited, and whatever matches are rejected, or made under identifiers that are
-- not taken: where every line points to a match of its own or to none, every line does so
-- still.
pub Reach-AreLinked : {start db : Db} → AreLinked start → Reach start db → AreLinked db
Reach-AreLinked linked here = linked
Reach-AreLinked linked (next r step) = Step-AreLinked step (Reach-AreLinked linked r)
