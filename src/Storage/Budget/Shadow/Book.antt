-- ===== src/Storage/Budget/Shadow/Book.antt =====
-- What `ShadowTransactionRepository` promises, over one list of entries in place of two tables, triggers
-- and a status that is set last: an entry is a header with its postings.
use tulip_accounting.Prelude.{
  ℕ, Bool, true, not, ◌&&◌, Option, none, some, List, [], ◌∷◌, ◌++◌, keep, all_of, if◌then◌else◌,
}
use tulip_accounting.Prelude.Results.{Error, Result, ok, err}
use tulip_accounting.Money.{Money}
use tulip_accounting.Transactions.{Uuid, tally, entry_is_zero}
use tulip_accounting.Storage.Rows.{stored}
use tulip_accounting.Allocation.Shadow.{
  ShadowTransaction, ShadowTxStatus, is_shadow_posted, ShadowPosting,
}
use tulip_accounting.Storage.Tables.{find, update, exists}
use tulip_accounting.Storage.Budget.{Budget, ShadowHeader, ShadowRow, PoolRow, is_shadow, is_leg_of}
use tulip_accounting.Storage.Budget.Triggers.{is_refused}
use tulip_accounting.Storage.Budget.Shadow.{
  shadow_header, shadow_rows_of, voided_shadow, save_shadow, void_shadow,
}

pub record Entry : Type 0 where
  pub header : ShadowHeader
  pub legs : List ShadowRow

abbrev pub is_entry : Uuid → Uuid → Entry → Bool
is_entry household_id id e = is_shadow household_id id e.header

-- The entries that the two tables hold.
abbrev pub entries : List ShadowRow → List ShadowHeader → List Entry
entries rows [] = []
entries rows (h ∷ hs) =
    record { header = h; legs = keep (is_leg_of h.household_id h.id) rows } ∷ entries rows hs

abbrev pub book : Budget → List Entry
book b = entries b.shadow_rows b.shadow_headers

-- The amounts of postings as the columns hold them.
abbrev pub stored_amounts : List ShadowPosting → List Money
stored_amounts [] = []
stored_amounts (p ∷ ps) =
    record { amount = stored p.amount.amount; currency = p.amount.currency } ∷ stored_amounts ps

-- What the columns hold of the postings of a transaction balances in every currency.
unfoldable pub is_stored_balanced : ShadowTransaction → Bool
unfolding tally
is_stored_balanced tx = all_of entry_is_zero (tally (stored_amounts tx.postings) [])

-- The postings of all entries.
abbrev pub all_legs : List Entry → List ShadowRow
all_legs [] = []
all_legs (e ∷ es) = e.legs ++ all_legs es

-- Each row of a list has a new identifier, and a pool of the household.
abbrev pub are_fit : List PoolRow → List ShadowRow → List ShadowRow → Bool
are_fit pools rows [] = true
are_fit pools rows (p ∷ ps) = not (is_refused pools rows p) && are_fit pools (rows ++ (p ∷ [])) ps

-- A new entry, at once in its status: refused under a taken key, and if it is posted out of balance.
unfoldable pub book_save :
    List PoolRow → Uuid → ShadowTransaction → ℕ → List Entry → Result (List Entry)
unfolding is_stored_balanced
book_save pools household_id tx now es =
    if exists (is_entry household_id tx.id) es
    then err Error.integrity_error
    else if not (are_fit pools (all_legs es) (shadow_rows_of household_id tx.id tx.postings))
    then err Error.integrity_error
    else if is_shadow_posted tx.status && not (is_stored_balanced tx)
    then err Error.trigger_abort
    else ok (
        es
        ++ (record {
          header = record (shadow_header household_id tx now) { status = tx.status };
          legs = shadow_rows_of household_id tx.id tx.postings;
        }
            ∷ []))

abbrev pub void_entry : ℕ → Entry → Entry
void_entry voided_at e = record e { header = voided_shadow voided_at e.header }

abbrev pub void_status : Uuid → Uuid → ℕ → ShadowTxStatus → List Entry → Result (List Entry)
void_status household_id id voided_at ShadowTxStatus.pending es = err Error.shadow_not_voidable
void_status household_id id voided_at ShadowTxStatus.voided es = ok es
void_status household_id id voided_at ShadowTxStatus.posted es =
    ok (update (is_entry household_id id) (void_entry voided_at) es)

abbrev pub void_found : Uuid → Uuid → ℕ → List Entry → Option Entry → Result (List Entry)
void_found household_id id voided_at es none = err Error.not_found
void_found household_id id voided_at es (some e) =
    void_status household_id id voided_at e.header.status es

-- The entry of a key is voided by its status.
unfoldable pub book_void : Uuid → Uuid → ℕ → List Entry → Result (List Entry)
book_void household_id id voided_at es =
    void_found household_id id voided_at es (find (is_entry household_id id) es)

-- A write of the shadow ledger, and any number of them in one session: what raises is rolled back.
pub data ShadowCall : Type 0 where
  saving : ShadowTransaction → ℕ → ShadowCall
  voiding : Uuid → ℕ → ShadowCall

abbrev pub kept_or {ℓ} : {A : Type ℓ} → Result A → A → A
kept_or (ok after) before = after
kept_or (err e) before = before

abbrev pub second {ℓ κ} : {A : Type ℓ} {B : Type κ} → Result (A × B) → Result B
second (ok r) = ok r.1
second (err e) = err e

-- The book of what a call returns.
abbrev pub booked : Result Budget → Result (List Entry)
booked (ok b) = ok (book b)
booked (err e) = err e

unfoldable pub perform_shadow : Uuid → ShadowCall → Budget → Result Budget
perform_shadow household_id (saving tx now) b = second (save_shadow household_id tx now b)
perform_shadow household_id (voiding id at) b = second (void_shadow household_id id at b)

unfoldable pub run_shadow : Uuid → List ShadowCall → Budget → Budget
unfolding perform_shadow
run_shadow household_id [] b = b
run_shadow household_id (c ∷ cs) b =
    run_shadow household_id cs (kept_or (perform_shadow household_id c b) b)

unfoldable pub perform_book : List PoolRow → Uuid → ShadowCall → List Entry → Result (List Entry)
perform_book pools household_id (saving tx now) es = book_save pools household_id tx now es
perform_book pools household_id (voiding id at) es = book_void household_id id at es

unfoldable pub run_book : List PoolRow → Uuid → List ShadowCall → List Entry → List Entry
unfolding perform_book
run_book pools household_id [] es = es
run_book pools household_id (c ∷ cs) es =
    run_book pools household_id cs (kept_or (perform_book pools household_id c es) es)
