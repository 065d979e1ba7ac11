-- ===== src/Accounting/Reversal.antt =====
-- `build_reversal`: it never fails on a valid transaction of the ledger, and what it builds undoes
-- the source, account by account.
use tulip_accounting.Prelude.{
  ℕ, suc, ◌↔◌, ◌+◌, ◌≡◌, refl, ap, arith, ◌==◌, Bool, true, false, String, Option, none, List, [],
  ◌∷◌, length, keep, All,
}
use tulip_accounting.Prelude.Int.{pos}
use tulip_accounting.Prelude.Results.{Error, ok, err, ◌>>=◌}
use tulip_accounting.Decimal.{neg, add}
use tulip_accounting.Decimal.Arithmetic.{neg_zero, add-neg_self}
use tulip_accounting.Money.{IsMoney}
use tulip_accounting.Money.Laws.{money_ok}
use tulip_accounting.Transactions.{
  Uuid, Date, Posting, Transaction, TransactionStatus, in_ledger, check_transaction, amounts,
  is_balanced,
}
use tulip_accounting.Transactions.Balance.{sum_in, negated, sum_in-negated, is_balanced_iff}
use tulip_accounting.Periods.{Period}
use tulip_accounting.Accounting.{
  flip_posting, flip_postings, build_reversal, as_posted, post_transaction,
}
use tulip_accounting.Accounting.Valid.{IsValid, enough_postings, in_ledger-is_balanced}
use tulip_accounting.Accounting.Post.{IsOpen, post_transaction_iff}

-- The posting that reverses another.
abbrev flipped : Uuid → Posting → Posting
flipped new_id p = record {
  id = new_id;
  account_id = p.account_id;
  amount = record { amount = neg p.amount.amount; currency = p.amount.currency };
  pool_id = p.pool_id;
  memo = p.memo;
  fx_rate = none;
  fx_amount = none;
}

flip_posting_ok :
    (new_id : Uuid) (p : Posting) → IsMoney p.amount → flip_posting new_id p ≡ ok (flipped new_id p)
unfolding flip_posting
flip_posting_ok new_id p h = rw (money_ok (neg p.amount.amount) p.amount.currency h) refl

abbrev flipped_all : (ℕ → Uuid) → ℕ → List Posting → List Posting
flipped_all fresh k [] = []
flipped_all fresh k (p ∷ ps) = flipped (fresh k) p ∷ flipped_all fresh (k + 1) ps

flip_postings_ok :
    (fresh : ℕ → Uuid) (k : ℕ) (ps : List Posting)
    → All (λ p. IsMoney p.amount) ps
    → flip_postings fresh k ps ≡ ok (flipped_all fresh k ps)
unfolding flip_postings
flip_postings_ok fresh k [] h = refl
flip_postings_ok fresh k (p ∷ ps) h =
    rw (flip_posting_ok (fresh k) p h.0, flip_postings_ok fresh (k + 1) ps h.1) refl

-- The postings of one account.
abbrev pub on_account : Uuid → List Posting → List Posting
on_account a = keep (λ p. p.account_id == a)

amounts-flipped_all :
    (fresh : ℕ → Uuid) (k : ℕ) (ps : List Posting)
    → amounts (flipped_all fresh k ps) ≡ negated (amounts ps)
amounts-flipped_all fresh k [] = refl
amounts-flipped_all fresh k (p ∷ ps) = rw (amounts-flipped_all fresh (k + 1) ps) refl

amounts-on_account :
    (a : Uuid) (fresh : ℕ → Uuid) (k : ℕ) (ps : List Posting)
    → amounts (on_account a (flipped_all fresh k ps)) ≡ negated (amounts (on_account a ps))
amounts-on_account a fresh k [] = refl
amounts-on_account a fresh k (p ∷ ps) = ground (arith, amounts-on_account a fresh (k + 1) ps)

length-flipped_all :
    (fresh : ℕ → Uuid) (k : ℕ) (ps : List Posting) → length (flipped_all fresh k ps) ≡ length ps
length-flipped_all fresh k [] = refl
length-flipped_all fresh k (p ∷ ps) = ap suc (length-flipped_all fresh (k + 1) ps)

known-flipped_all :
    (fresh : ℕ → Uuid) (k : ℕ) (ps : List Posting)
    → All (λ p. IsMoney p.amount) ps
    → All (λ p. IsMoney p.amount) (flipped_all fresh k ps)
known-flipped_all fresh k [] h = tt
known-flipped_all fresh k (p ∷ ps) h = (h.0, known-flipped_all fresh (k + 1) ps h.1)

module _ (fresh : ℕ → Uuid) (source : Transaction) (new_id : Uuid) (date : Date)
    (description : String) (actor : Option Uuid) where
  -- The transaction that the reversal is.
  abbrev pub reversal : Transaction
  reversal = record {
    id = new_id;
    household_id = source.household_id;
    date = date;
    description = description;
    postings = flipped_all fresh 0 source.postings;
    status = TransactionStatus.pending;
    reference = none;
    created_by_user_id = actor;
    voided_by_transaction_id = none;
  }

  module _ (v : IsValid source) (l : in_ledger source.status ≡ true) where
    reversal_checked : check_transaction reversal ≡ ok reversal
    unfolding check_transaction
    reversal_checked =
        let n = length-flipped_all fresh 0 source.postings in
        let two = enough_postings source v.checked in ground arith

    pub reversal-IsValid : IsValid reversal
    reversal-IsValid = record {
      checked = reversal_checked;
      known = known-flipped_all fresh 0 source.postings v.known;
    }

    pub reversal-is_balanced : is_balanced reversal ≡ true
    reversal-is_balanced = (is_balanced_iff reversal).1 λ c.
        rw (amounts-flipped_all fresh 0 source.postings, sum_in-negated c (amounts source.postings))
          (neg_zero (sum_in c (amounts source.postings))
            ((is_balanced_iff source).0 (in_ledger-is_balanced source v.checked l) c))

    pub build_reversal_ok : build_reversal fresh source new_id date description actor ≡ ok reversal
    unfolding build_reversal
    build_reversal_ok = rw (l, flip_postings_ok fresh 0 source.postings v.known) reversal_checked

-- Of a valid source in the ledger a reversal is always built: it is pending and balanced, and with
-- the source's postings every account's sum is zero in every currency.
pub build_reversal_lem :
    (fresh : ℕ → Uuid) (source : Transaction) (new_id : Uuid) (date : Date) (description : String)
    (actor : Option Uuid)
    → IsValid source
    → in_ledger source.status ≡ true
    → (r : Transaction) × (build_reversal fresh source new_id date description actor ≡ ok r)
      × (r.status ≡ TransactionStatus.pending)
      × (is_balanced r ≡ true)
      × ((a : Uuid) (c : String)
          → (add
              (sum_in c (amounts (on_account a source.postings)))
              (sum_in c (amounts (on_account a r.postings)))).coeff
            ≡ pos 0)
build_reversal_lem fresh source new_id date description actor v l = (
  reversal fresh source new_id date description actor,
  build_reversal_ok fresh source new_id date description actor v l,
  refl,
  reversal-is_balanced fresh source new_id date description actor v l,
  λ a c.
      let own = amounts (on_account a source.postings) in
      rw (amounts-on_account a fresh 0 source.postings, sum_in-negated c own)
        (add-neg_self (sum_in c own)),
)

-- Only what is in the ledger can be reversed.
pub build_reversal_pending :
    (fresh : ℕ → Uuid) (source : Transaction) (new_id : Uuid) (date : Date) (description : String)
    (actor : Option Uuid)
    → in_ledger source.status ≡ false
    → build_reversal fresh source new_id date description actor ≡ err Error.not_voidable
unfolding build_reversal
build_reversal_pending fresh source new_id date description actor l = rw l refl

-- A reversal of a valid source in the ledger can be posted exactly when the first period of its
-- household that the reversal's own date lies in is open, or is there and the override is given.
pub post-reversal :
    (fresh : ℕ → Uuid) (source : Transaction) (new_id : Uuid) (date : Date) (description : String)
    (actor : Option Uuid) (periods : List Period) (override : Bool)
    → IsValid source
    → in_ledger source.status ≡ true
    → let r = reversal fresh source new_id date description actor in
      ((build_reversal fresh source new_id date description actor >>= λ t.
      post_transaction t periods override)
        ≡ ok (as_posted r))
      ↔ IsOpen r periods override
post-reversal fresh source new_id date description actor periods override v l =
    let r = reversal fresh source new_id date description actor in
    let made = build_reversal_ok fresh source new_id date description actor v l in
    let valid = reversal-IsValid fresh source new_id date description actor v l in
    let posts = post_transaction_iff r periods override valid refl in
    let balanced = reversal-is_balanced fresh source new_id date description actor v l in
    rw made (λ h. (posts.0 h).1, λ open_gate. posts.1 (balanced, open_gate))
