-- ===== src/Accounting/Post.antt =====
-- `post_transaction`: what it returns, when it raises, and that posting again changes nothing.
use tulip_accounting.Prelude.{
  ◌≡◌, ◌≤◌, ◌⊎◌, refl, ap, ◌++◌, All, inl, inr, Bool, true, false, some, List, [], ◌∷◌, arith, ◌↔◌,
  keep, head?, Bool-cases,
}
use tulip_accounting.Prelude.Results.{Error, ok, err}
use tulip_accounting.Transactions.{Transaction, check_transaction, is_balanced}
use tulip_accounting.Periods.{Period, PeriodStatus}
use tulip_accounting.Accounting.{covers, is_posted, period_gate, as_posted, post_transaction}
use tulip_accounting.Accounting.Valid.{
  IsValid, enough_postings, in_ledger-is_balanced, check_transaction-as_posted,
}

-- The period is of the transaction's household, and the transaction's date lies in it.
abbrev pub IsOver : Transaction → Period → Type 0
IsOver tx p = (p.household_id ≡ tx.household_id) × (p.start_date ≤ tx.date) × (tx.date ≤ p.end_date)

-- The first period of the transaction's household that its date lies in is open, or the override is given.
abbrev pub IsOpen : Transaction → List Period → Bool → Type 0
IsOpen tx periods override =
    (before : List Period) × (p : Period) × (after : List Period) × (periods
      ≡ before ++ (p ∷ after))
    × All (λ q. ¬ IsOver tx q) before
    × IsOver tx p
    × ((p.status ≡ PeriodStatus.opened) ⊎ (override ≡ true))

gate-IsOpen :
    (tx : Transaction) (ps : List Period) (override : Bool)
    → period_gate (head? (keep (covers tx) ps)) override ≡ ok tt
    → IsOpen tx ps override
gate-IsOpen tx [] override h = absurd (cc)
gate-IsOpen tx (q ∷ ps) override h = elim (Bool-cases (covers tx q)) [
  | inl fits ↦
      let gate = rw fits at h in
      ([], q, ps, refl, tt, (ground arith, ground arith, ground arith), ground arith)
  | inr fails ↦
      let (before, p, after, cut, none_before, over, opened) =
        gate-IsOpen tx ps override (rw fails at h) in
      (
        q ∷ before,
        p,
        after,
        ap (λ qs. q ∷ qs) cut,
        (λ (own, from, to). absurd (let no = fails in ground arith), none_before),
        over,
        opened,
      )
]

first_over :
    (tx : Transaction) (before : List Period) (p : Period) (after : List Period)
    → All (λ q. ¬ IsOver tx q) before
    → covers tx p ≡ true
    → head? (keep (covers tx) (before ++ (p ∷ after))) ≡ some p
first_over tx [] p after none_before over = rw over refl
first_over tx (q ∷ before) p after (not_over, none_before) over = elim (Bool-cases (covers tx q)) [
  | inl fits ↦ absurd (not_over (ground arith, ground arith, ground arith))
  | inr fails ↦ rw fails (first_over tx before p after none_before over)
]

IsOpen-gate :
    (tx : Transaction) (ps : List Period) (override : Bool)
    → IsOpen tx ps override
    → period_gate (head? (keep (covers tx) ps)) override ≡ ok tt
IsOpen-gate tx ps override (before, p, after, cut, none_before, over, opened) =
    rw (cut, first_over tx before p after none_before (ground arith))
      (elim opened [ inl e ↦ rw e refl | inr e ↦ ground arith ])

-- A valid transaction that is not posted yet is posted exactly when it balances and the first
-- period of its household that its date lies in is open, or is there and the override is given;
-- then nothing but its status changes.
pub post_transaction_iff :
    (tx : Transaction) (periods : List Period) (override : Bool)
    → IsValid tx
    → is_posted tx.status ≡ false
    → (post_transaction tx periods override ≡ ok (as_posted tx))
      ↔ ((is_balanced tx ≡ true) × IsOpen tx periods override)
unfolding post_transaction
post_transaction_iff tx periods override v s =
    let posts = check_transaction-as_posted tx (enough_postings tx v.checked) in
    (
      λ h. (
        ground arith,
        gate-IsOpen tx periods override (elim (Bool-cases (is_balanced tx)) [
          | inl even ↦ ground (arith, posts even)
          | inr odd ↦ absurd (ground arith)
        ]),
      ),
      λ (even, opened).
          let gate = IsOpen-gate tx periods override opened in ground (arith, posts even),
    )

-- Whatever is returned for a transaction that was constructed is posted and balanced, passes the
-- constructor's checks, and differs from the argument in its status only.
pub post_transaction_sound :
    (tx : Transaction) (periods : List Period) (override : Bool) {t : Transaction}
    → check_transaction tx ≡ ok tx
    → post_transaction tx periods override ≡ ok t
    → (t ≡ as_posted tx) × (is_balanced t ≡ true) × (check_transaction t ≡ ok t)
unfolding post_transaction
post_transaction_sound tx periods override c h =
    ground
      (arith, check_transaction-as_posted tx (enough_postings tx c), in_ledger-is_balanced tx c)

-- Posting what was returned by a posting returns it again, with any periods and override.
pub post_transaction_idem :
    (tx : Transaction) (periods later : List Period) (override again : Bool) {t : Transaction}
    → post_transaction tx periods override ≡ ok t
    → post_transaction t later again ≡ ok t
unfolding post_transaction check_transaction
post_transaction_idem tx periods later override again h = ground arith

-- A valid transaction that is refused either does not balance, and is refused for that, or it
-- balances and the gate on the periods gives the error.
pub post_transaction_error :
    (tx : Transaction) (periods : List Period) (override : Bool) {e : Error}
    → IsValid tx
    → post_transaction tx periods override ≡ err e
    → ((is_balanced tx ≡ false) × (e ≡ Error.unbalanced_transaction))
      ⊎ ((is_balanced tx ≡ true)
          × (period_gate (head? (keep (covers tx) periods)) override ≡ err e))
unfolding post_transaction
post_transaction_error tx periods override v h =
    ground (arith, check_transaction-as_posted tx (enough_postings tx v.checked))
