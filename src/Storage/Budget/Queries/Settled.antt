-- ===== src/Storage/Budget/Queries/Settled.antt =====
-- The balance of what is posted in the shadow ledger, over sequences of saves and voids.
use tulip_accounting.Prelude.{
  ℕ, ◌≡◌, inl, inr, arith, true, not, ◌&&◌, String, List, [], ◌∷◌, All, All-append, Bool-cases,
  Option-cases,
}
use tulip_accounting.Prelude.Int.{pos}
use tulip_accounting.Prelude.Results.{Result, ok, err, Ensures}
use tulip_accounting.Transactions.{Uuid}
use tulip_accounting.Transactions.Balance.{sum_in, tally_iff}
use tulip_accounting.Allocation.Shadow.{ShadowTransaction, ShadowTxStatus, is_shadow_posted}
use tulip_accounting.Storage.Tables.{find, exists, All-update}
use tulip_accounting.Storage.Budget.{Budget, PoolRow, leg_amounts}
use tulip_accounting.Storage.Budget.Shadow.{shadow_rows_of}
use tulip_accounting.Storage.Budget.Shadow.Book.{
  all_legs, are_fit, is_stored_balanced, stored_amounts, Entry, is_entry, book, book_save,
  void_status, book_void, ShadowCall, saving, voiding, kept_or, run_shadow, perform_book, run_book,
}
use tulip_accounting.Storage.Budget.Shadow.Entries.{IsLinked, leg_amounts-rows}
use tulip_accounting.Storage.Budget.Shadow.Refines.{run_refines}

-- The postings of a posted entry sum to zero in every currency.
abbrev pub IsSettled : Entry → Type 0
IsSettled e =
    is_shadow_posted e.header.status ≡ true
    → (c : String) → (sum_in c (leg_amounts e.legs)).coeff ≡ pos 0

abbrev pub IsSettledBook : List Entry → Type 0
IsSettledBook es = All IsSettled es

pub save-IsSettled :
    (pools : List PoolRow) (hh : Uuid) (tx : ShadowTransaction) (now : ℕ) (es : List Entry)
    → IsSettledBook es
    → Ensures IsSettledBook (book_save pools hh tx now es)
unfolding book_save is_stored_balanced
save-IsSettled pools hh tx now es settled = elim (Bool-cases (exists (is_entry hh tx.id) es)) [
  | inl taken ↦ rw taken tt
  | inr free ↦
      let rows = shadow_rows_of hh tx.id tx.postings in
      rw free (elim (Bool-cases (are_fit pools (all_legs es) rows)) [
        | inr refused ↦ rw refused tt
        | inl fit ↦
            rw fit (elim (Bool-cases (is_shadow_posted tx.status && not (is_stored_balanced tx))) [
              | inl out ↦ rw out tt
              | inr even ↦ rw even (
                  All-append IsSettled es _ settled (
                    (λ is_posted c.
                        let balanced : is_stored_balanced tx ≡ true = ground arith in
                        rw (leg_amounts-rows hh tx.id tx.postings)
                          ((tally_iff (stored_amounts tx.postings)).0 balanced c)),
                    tt,
                  ))
            ])
      ])
]

pub void-IsSettled :
    (hh id : Uuid) (at : ℕ) (es : List Entry)
    → IsSettledBook es
    → Ensures IsSettledBook (book_void hh id at es)
unfolding book_void
void-IsSettled hh id at es settled = elim (Option-cases (find (is_entry hh id) es)) [
  | inl absent ↦ rw absent tt
  | inr (e, found) ↦ rw found (by_status e.header.status)
]
  where
    by_status : (s : ShadowTxStatus) → Ensures IsSettledBook (void_status hh id at s es)
    by_status ShadowTxStatus.pending = tt
    by_status ShadowTxStatus.voided = settled
    by_status ShadowTxStatus.posted =
        All-update (is_entry hh id) _ es (λ e s own p. absurd (cc)) (λ e s miss. s) settled

kept-IsSettled :
    (r : Result (List Entry)) (es : List Entry)
    → Ensures IsSettledBook r
    → IsSettledBook es
    → IsSettledBook (kept_or r es)
kept-IsSettled (ok after) es h settled = h
kept-IsSettled (err e) es h settled = settled

run-IsSettled :
    (pools : List PoolRow) (hh : Uuid) (cs : List ShadowCall) (es : List Entry)
    → IsSettledBook es
    → IsSettledBook (run_book pools hh cs es)
unfolding run_book perform_book
run-IsSettled pools hh [] es settled = settled
run-IsSettled pools hh (saving tx now ∷ cs) es settled = run-IsSettled pools hh cs _ (
    kept-IsSettled (book_save pools hh tx now es) es (save-IsSettled pools hh tx now es settled)
      settled)
run-IsSettled pools hh (voiding id at ∷ cs) es settled =
    run-IsSettled pools hh cs _
      (kept-IsSettled (book_void hh id at es) es (void-IsSettled hh id at es settled) settled)

-- Where the postings of every posted shadow transaction sum to zero in every currency, they do so after
-- any sequence of saves and voids.
pub run-IsShadowLedger :
    (hh : Uuid) (cs : List ShadowCall) (b : Budget)
    → IsLinked b
    → IsSettledBook (book b)
    → IsSettledBook (book (run_shadow hh cs b))
run-IsShadowLedger hh cs b linked settled =
    rw (run_refines hh cs b linked) (run-IsSettled b.pools hh cs (book b) settled)
