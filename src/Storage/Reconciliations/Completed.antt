-- ===== src/Storage/Reconciliations/Completed.antt =====
-- A reconciliation that is completed and then reverted, and a match that is rejected beside another.
use tulip_accounting.Prelude.{
  ◌≡◌, refl, arith, true, false, not, ◌&&◌, none, some, List, [], ◌==◌, All,
}
use tulip_accounting.Prelude.Results.{ok}
use tulip_accounting.Transactions.{Uuid}
use tulip_accounting.Storage.Tables.{
  find-delete_self, All-rows, find, update, find-delete_kept, All-update, keep-delete_self,
}
use tulip_accounting.Storage.Rows.{
  Db, Header, LineRow, MatchRow, Reconciliation, is_line, is_match, is_reconciliation,
}
use tulip_accounting.Storage.Reconciliations.Lines.{is_unmatched}
use tulip_accounting.Storage.Reconciliations.{
  refers_to, is_match_of, get_reconciliation, list_for_reconciliation, unreconciled, revert,
  reverted, reject, rejected,
}

-- A transaction of the household that is not set to the reconciliation.
abbrev pub IsUnset : Uuid → Uuid → Header → Type 0
IsUnset household_id id h = h.household_id ≡ household_id → refers_to h.reconciliation_id id ≡ false

abbrev pub IsUncarried : Uuid → Uuid → Header → Type 0
IsUncarried household_id id h =
    h.household_id ≡ household_id → refers_to h.carried_forward_from_reconciliation_id id ≡ false

-- Nothing of the household names the reconciliation.
abbrev pub IsForgotten : Uuid → Uuid → Db → Type 0
IsForgotten household_id id db =
    (get_reconciliation household_id id db ≡ none)
    × (list_for_reconciliation household_id id db ≡ [])
    × All (λ h. IsUnset household_id id h × IsUncarried household_id id h) db.headers

unset :
    (household_id id : Uuid) (hs : List Header)
    → All (IsUnset household_id id) (
        update
          (λ h. h.household_id == household_id && refers_to h.reconciliation_id id)
          (λ h. record h { reconciliation_id = none; reconciled_at = none })
          hs)
unset hh id hs =
    All-update (λ h. h.household_id == hh && refers_to h.reconciliation_id id)
      (λ h. record h { reconciliation_id = none; reconciled_at = none }) hs (λ h _ hit own. refl)
      (λ h _ miss own. ground arith) (All-rows hs)

cleared :
    (household_id id : Uuid) (hs : List Header)
    → All
        (λ h. IsUnset household_id id h × IsUncarried household_id id h)
        (unreconciled household_id id hs)
cleared hh id hs =
    All-update (λ h. h.household_id == hh && refers_to h.carried_forward_from_reconciliation_id id)
      (λ h. record h { carried_forward_from_reconciliation_id = none })
      (update (λ h. h.household_id == hh && refers_to h.reconciliation_id id)
        (λ h. record h { reconciliation_id = none; reconciled_at = none }) hs)
      (λ h old hit. (old, λ own. refl)) (λ h old miss. (old, λ own. ground arith)) (unset hh id hs)

-- Reverting a reconciliation that is there leaves nothing of the household that names it: no
-- reconciliation, no match, no transaction that it reconciled or carried forward.
pub revert-IsForgotten :
    (household_id id : Uuid) (db : Db) (r : Reconciliation)
    → get_reconciliation household_id id db ≡ some r
    → (revert household_id id db ≡ ok (reverted household_id id db))
      × IsForgotten household_id id (reverted household_id id db)
unfolding revert
revert-IsForgotten hh id db r e = (
  rw e refl,
  (
    find-delete_self (is_reconciliation hh id) db.reconciliations,
    keep-delete_self (is_match_of hh id) db.matches,
    cleared hh id db.headers,
  ),
)

-- What a line of the household shows of its match.
abbrev pub IsFreed : Uuid → Uuid → LineRow → Type 0
IsFreed household_id line_id l =
    is_line household_id line_id l ≡ true → is_unmatched l ≡ not l.is_excluded

-- When two stored matches name one line, rejecting one of them shows the line as unmatched, unless
-- it is excluded, while the other match of the line stays.
pub reject_beside :
    (household_id line_id : Uuid) (a b : MatchRow) (db : Db)
    → find (is_match household_id a.id) db.matches ≡ some a
    → find (is_match household_id b.id) db.matches ≡ some b
    → (a.id == b.id) ≡ false
    → a.statement_line_id ≡ some line_id
    → b.statement_line_id ≡ some line_id
    → (after : Db) × (reject household_id a.id db ≡ ok after)
      × (find (is_match household_id b.id) after.matches ≡ some b)
      × All (IsFreed household_id line_id) after.lines
unfolding reject
reject_beside hh line_id a b db found other distinct of_a of_b = (
  rejected hh a.id a db,
  rw found refl,
  find-delete_kept (is_match hh b.id) (is_match hh a.id) db.matches b other (ground arith),
  rw of_a (
      All-update (is_line hh line_id) (λ l. record l { reconciliation_match_id = none }) db.lines
        (λ l _ hit own. refl) (λ l _ miss own. absurd (cc)) (All-rows db.lines)),
)
