-- ===== src/Storage/Budget/Shadow/Saving.antt =====
-- `save_balanced` of the shadow ledger: when it succeeds, and what it leaves.
use tulip_accounting.Prelude.{
  ℕ, ◌≡◌, inl, inr, refl, ap, ◌∙◌, arith, Bool, false, not, ◌&&◌, List, [], ◌∷◌, ◌++◌, keep,
  if◌then◌else◌, Bool-cases,
}
use tulip_accounting.Prelude.Results.{Error, Result, ok, err}
use tulip_accounting.Transactions.{Uuid}
use tulip_accounting.Allocation.Shadow.{ShadowTransaction, ShadowTxStatus, is_shadow_posted}
use tulip_accounting.Storage.Tables.{update, exists, keep-append, update-append_new}
use tulip_accounting.Storage.Budget.{Budget, ShadowHeader, ShadowRow, is_shadow, is_leg_of}
use tulip_accounting.Storage.Budget.Triggers.{
  is_shadow_balanced_in, shadow_post_aborts, insert_shadow_header, insert_shadow_rows,
  update_shadow_status,
}
use tulip_accounting.Storage.Budget.Shadow.{
  shadow_rows_of, is_shadow_pending, shadow_header, save_shadow,
}
use tulip_accounting.Storage.Budget.Shadow.Book.{
  all_legs, are_fit, is_stored_balanced, entries, book, book_save, second, booked,
}
use tulip_accounting.Storage.Budget.Shadow.Entries.{
  legs-rows, are_fit-same, IsLinked, exists-entries, keep-own, entries-append, entries-others,
  no_legs, insert_rows_ok, exists-added, leg_amounts-rows,
}

module _ (hh : Uuid) (tx : ShadowTransaction) (now : ℕ) (b : Budget) where
  abbrev pub new_rows : List ShadowRow
  new_rows = shadow_rows_of hh tx.id tx.postings

  abbrev pub fits : Bool
  fits = are_fit b.pools b.shadow_rows new_rows

  abbrev with_rows : Budget
  with_rows = record b {
    shadow_headers = b.shadow_headers ++ (shadow_header hh tx now ∷ []);
    shadow_rows = b.shadow_rows ++ new_rows;
  }

  abbrev pub final_header : ShadowHeader
  final_header = record (shadow_header hh tx now) { status = tx.status }

  module _ (free : exists (is_shadow hh tx.id) b.shadow_headers ≡ false) (linked : IsLinked b) where
    own_rows : keep (is_leg_of hh tx.id) (b.shadow_rows ++ new_rows) ≡ new_rows
    own_rows =
        rw
          (
            keep-append (is_leg_of hh tx.id) b.shadow_rows new_rows,
            no_legs hh tx.id b.shadow_rows b.shadow_headers free linked,
          )
          (keep-own hh tx.id tx.postings)

    trigger_balance :
        is_shadow_balanced_in (b.shadow_rows ++ new_rows) hh tx.id ≡ is_stored_balanced tx
    unfolding is_shadow_balanced_in is_stored_balanced
    trigger_balance = rw (own_rows, leg_amounts-rows hh tx.id tx.postings) refl

    pub book_added :
        (h : ShadowHeader)
        → h.household_id ≡ hh
        → h.id ≡ tx.id
        → entries (b.shadow_rows ++ new_rows) (b.shadow_headers ++ (h ∷ []))
          ≡ book b ++ (record { header = h; legs = new_rows } ∷ [])
    book_added h own named =
        rw
          (
            entries-append (b.shadow_rows ++ new_rows) b.shadow_headers (h ∷ []),
            entries-others hh tx.id b.shadow_rows tx.postings b.shadow_headers free,
            own,
            named,
            own_rows,
          )
          refl

    -- The statements up to the last.
    inserted :
        insert_shadow_rows new_rows
          (record b { shadow_headers = b.shadow_headers ++ (shadow_header hh tx now ∷ []) })
        ≡ (if fits then ok with_rows else err Error.integrity_error)
    inserted =
        insert_rows_ok hh tx.id tx.postings
          (record b { shadow_headers = b.shadow_headers ++ (shadow_header hh tx now ∷ []) })
          (exists-added hh tx.id (λ h. is_shadow_posted h.status) b.shadow_headers
            (shadow_header hh tx now) free (ground arith))

    post_test :
        exists
          (λ h. is_shadow hh tx.id h && shadow_post_aborts with_rows.shadow_rows tx.status h)
          with_rows.shadow_headers
        ≡ (is_shadow_posted tx.status && not (is_stored_balanced tx))
    post_test =
        exists-added hh tx.id (shadow_post_aborts with_rows.shadow_rows tx.status) b.shadow_headers
          (shadow_header hh tx now) free (ground arith)
        ∙ rw trigger_balance (ground arith)

    updated :
        update (is_shadow hh tx.id) (λ h. record h { status = tx.status }) with_rows.shadow_headers
        ≡ b.shadow_headers ++ (final_header ∷ [])
    updated =
        update-append_new (is_shadow hh tx.id) (λ h. record h { status = tx.status })
          b.shadow_headers (shadow_header hh tx now) free (ground arith)

  -- The tables after a save that succeeds.
  abbrev pub saved_budget : Budget
  saved_budget = record b {
    shadow_headers = b.shadow_headers ++ (final_header ∷ []);
    shadow_rows = b.shadow_rows ++ new_rows;
  }

  -- A taken key, a row that the constraints refuse, a posted transaction out of balance, or the saved tables.
  abbrev pub SaveOutcome : Result (ShadowHeader × Budget)
  SaveOutcome =
      if exists (is_shadow hh tx.id) b.shadow_headers
      then err Error.integrity_error
      else if not fits
      then err Error.integrity_error
      else if is_shadow_posted tx.status && not (is_stored_balanced tx)
      then err Error.trigger_abort
      else ok (final_header, saved_budget)

  pub save_shadow_lem : IsLinked b → save_shadow hh tx now b ≡ SaveOutcome
  unfolding save_shadow insert_shadow_header update_shadow_status
  save_shadow_lem linked = elim (Bool-cases (exists (is_shadow hh tx.id) b.shadow_headers)) [
    | inl taken ↦ rw taken refl
    | inr free ↦ elim (Bool-cases fits) [
      | inr refused ↦ rw (free, inserted free linked, refused) refl
      | inl taken ↦ elim (Bool-cases (is_shadow_pending tx.status)) [
        | inl waits ↦
            let same : tx.status ≡ ShadowTxStatus.pending = ground arith in
            rw (free, inserted free linked, taken, waits) (rw same refl)
        | inr decided ↦
            rw (free, inserted free linked, taken, decided, post_test free linked)
              (elim (Bool-cases (is_shadow_posted tx.status && not (is_stored_balanced tx))) [
                | inl out ↦ rw out refl
                | inr even ↦ rw (even, updated free linked) refl
              ])
      ]
    ]
  ]

  pub save-book :
      IsLinked b → booked (second (save_shadow hh tx now b)) ≡ book_save b.pools hh tx now (book b)
  unfolding book_save
  save-book linked =
      rw
        (
          save_shadow_lem linked,
          exists-entries hh tx.id b.shadow_rows b.shadow_headers,
          are_fit-same b.pools (all_legs (book b)) b.shadow_rows new_rows (legs-rows b linked),
        )
        (elim (Bool-cases (exists (is_shadow hh tx.id) b.shadow_headers)) [
          | inl taken ↦ rw taken refl
          | inr free ↦ rw free (elim (Bool-cases fits) [
            | inr refused ↦ rw refused refl
            | inl fit ↦
                rw fit
                  (elim (Bool-cases (is_shadow_posted tx.status && not (is_stored_balanced tx))) [
                    | inl out ↦ rw out refl
                    | inr even ↦ rw even (ap ok (book_added free linked final_header refl refl))
                  ])
          ])
        ])
