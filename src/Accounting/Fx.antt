-- ===== src/Accounting/Fx.antt =====
-- `balance_with_fx_postings`: the result balances, and only the gain and loss account is touched.
use mathlib.Core.List.{append-nil}
use tulip_accounting.Prelude.{
  ℕ, ◌+◌, ◌≡◌, refl, sym, arith, true, String, str_eq, eq_iff, none, some, List, [], ◌∷◌, ◌++◌,
  length-append, All, if◌then◌else◌, Bool-cases, inl, inr,
}
use tulip_accounting.Prelude.Int.{pos}
use tulip_accounting.Prelude.Results.{ok, is_ok}
use tulip_accounting.Prelude.Dict.{Dict, lookup, insert, IsKeyed}
use tulip_accounting.Decimal.{Decimal, nought, neg, add, is_zero}
use tulip_accounting.Decimal.Arithmetic.{add-neg_self, add_zeros, add_comm, nought-add, is_zero_iff}
use tulip_accounting.Currency.{from_code}
use tulip_accounting.Money.{IsMoney}
use tulip_accounting.Money.Laws.{money_ok}
use tulip_accounting.Transactions.{
  Uuid, Posting, Transaction, check_transaction, amounts, tally, bump, is_balanced,
  balance_per_currency,
}
use tulip_accounting.Transactions.Balance.{
  sum_in, sum_in-append, net, is_balanced_iff, balance_per_currency_lem, tally-IsKeyed,
}
use tulip_accounting.Accounting.{fx_posting, fx_postings, balance_with_fx_postings}
use tulip_accounting.Accounting.Valid.{IsValid, enough_postings}

abbrev KnownKeys : Dict Decimal → Type 0
KnownKeys = All (λ e. is_ok (from_code e.0) ≡ true)

insert-KnownKeys :
    (c : String) (x : Decimal) (sums : Dict Decimal)
    → is_ok (from_code c) ≡ true
    → KnownKeys sums
    → KnownKeys (insert c x sums)
insert-KnownKeys c x [] h k = (h, tt)
insert-KnownKeys c x ((j, d) ∷ sums) h k = ground (arith, insert-KnownKeys c x sums h k.1)

tally-KnownKeys :
    (ps : List Posting) (sums : Dict Decimal)
    → All (λ p. IsMoney p.amount) ps
    → KnownKeys sums
    → KnownKeys (tally (amounts ps) sums)
unfolding tally
tally-KnownKeys [] sums h k = k
tally-KnownKeys (p ∷ ps) sums h k =
    let m = p.amount in
    tally-KnownKeys ps (bump m.currency m.amount sums) h.1
      (insert-KnownKeys m.currency (add (net m.currency sums) m.amount) sums h.0 k)

-- The offsetting posting of one currency.
abbrev offset : Uuid → Uuid → String → Decimal → Posting
offset new_id account currency balance = record {
  id = new_id;
  account_id = account;
  amount = record { amount = neg balance; currency = currency };
  pool_id = none;
  memo = some "FX gain/loss balancing";
  fx_rate = none;
  fx_amount = none;
}

abbrev offsets : (ℕ → Uuid) → ℕ → Uuid → Dict Decimal → List Posting
offsets fresh k account [] = []
offsets fresh k account ((c, d) ∷ sums) =
    let rest = offsets fresh (if is_zero d then k else k + 1) account sums in
    if is_zero d then rest else offset (fresh k) account c d ∷ rest

fx_posting_ok :
    (new_id account : Uuid) (c : String) (d : Decimal)
    → is_ok (from_code c) ≡ true
    → fx_posting new_id account c d ≡ ok (offset new_id account c d)
unfolding fx_posting
fx_posting_ok new_id account c d h = rw (money_ok (neg d) c h) refl

fx_postings_ok :
    (fresh : ℕ → Uuid) (k : ℕ) (account : Uuid) (sums : Dict Decimal)
    → KnownKeys sums
    → fx_postings fresh k account sums ≡ ok (offsets fresh k account sums)
unfolding fx_postings
fx_postings_ok fresh k account [] h = refl
fx_postings_ok fresh k account ((c, d) ∷ sums) h = elim (Bool-cases (is_zero d)) [
  | inl z ↦ rw z (fx_postings_ok fresh k account sums h.1)
  | inr nz ↦
      rw
        (nz, fx_posting_ok (fresh k) account c d h.0, fx_postings_ok fresh (k + 1) account sums h.1)
        refl
]

-- A currency without an entry gets no posting.
offsets_absent :
    (c : String) (fresh : ℕ → Uuid) (k : ℕ) (account : Uuid) (sums : Dict Decimal)
    → lookup c sums ≡ none
    → sum_in c (amounts (offsets fresh k account sums)) ≡ nought
offsets_absent c fresh k account [] h = refl
offsets_absent c fresh k account ((j, d) ∷ sums) h = elim (Bool-cases (is_zero d)) [
  | inl z ↦ rw z (ground (arith, offsets_absent c fresh k account sums))
  | inr nz ↦ rw nz (ground (arith, offsets_absent c fresh (k + 1) account sums))
]

-- The postings added for a dict of balances cancel every balance.
offsets_cancel :
    (c : String) (fresh : ℕ → Uuid) (k : ℕ) (account : Uuid) (sums : Dict Decimal)
    → IsKeyed sums
    → (add (net c sums) (sum_in c (amounts (offsets fresh k account sums)))).coeff ≡ pos 0
offsets_cancel c fresh k account [] h = add_zeros nought nought refl refl
offsets_cancel c fresh k account ((j, d) ∷ sums) h = elim (Bool-cases (is_zero d)) [
  | inl z ↦ rw z (elim (Bool-cases (str_eq j c)) [
    | inl same ↦
        let e = (eq_iff j c).0 same in
        rw (same, offsets_absent c fresh k account sums (rw e at (h.0)))
          (add_zeros d nought ((is_zero_iff d).0 z) refl)
    | inr other ↦ rw other (offsets_cancel c fresh k account sums h.1)
  ])
  | inr nz ↦ rw nz (elim (Bool-cases (str_eq j c)) [
    | inl same ↦
        let e = (eq_iff j c).0 same in
        rw
          (
            same,
            offsets_absent c fresh (k + 1) account sums (rw e at (h.0)),
            add_comm (neg d) nought,
            nought-add (neg d),
          )
          (add-neg_self d)
    | inr other ↦ rw other (offsets_cancel c fresh (k + 1) account sums h.1)
  ])
]

offsets_account :
    (fresh : ℕ → Uuid) (k : ℕ) (account : Uuid) (sums : Dict Decimal)
    → All (λ p. p.account_id ≡ account) (offsets fresh k account sums)
offsets_account fresh k account [] = tt
offsets_account fresh k account ((j, d) ∷ sums) = elim (Bool-cases (is_zero d)) [
  | inl z ↦ rw z (offsets_account fresh k account sums)
  | inr nz ↦ rw nz (refl, offsets_account fresh (k + 1) account sums)
]

amounts-append : (xs ys : List Posting) → amounts (xs ++ ys) ≡ amounts xs ++ amounts ys
amounts-append [] ys = refl
amounts-append (x ∷ xs) ys = rw (amounts-append xs ys) refl

module _ (fresh : ℕ → Uuid) (tx : Transaction) (account : Uuid) where
  abbrev added : List Posting
  added = offsets fresh 0 account (balance_per_currency tx)

  abbrev extended : Transaction
  extended = record tx { postings = tx.postings ++ added }

  extended-is_balanced : is_balanced extended ≡ true
  unfolding balance_per_currency
  extended-is_balanced = (is_balanced_iff extended).1 λ c.
      rw
        (
          amounts-append tx.postings added,
          sum_in-append c (amounts tx.postings) (amounts added),
          ← balance_per_currency_lem tx c,
        )
        (offsets_cancel c fresh 0 account (balance_per_currency tx)
          (tally-IsKeyed (amounts tx.postings) [] tt))

  extended_checked : check_transaction tx ≡ ok tx → check_transaction extended ≡ ok extended
  unfolding check_transaction
  extended_checked h =
      let b = extended-is_balanced in
      let n = length-append tx.postings added in let two = enough_postings tx h in ground arith

-- A valid transaction is never refused: the result balances in every currency, keeps all else of the
-- transaction, and has its postings followed by postings on the gain and loss account alone.
pub balance_with_fx_postings_lem :
    (fresh : ℕ → Uuid) (tx : Transaction) (account : Uuid)
    → IsValid tx
    → (t : Transaction) × (added : List Posting) × (balance_with_fx_postings fresh tx account
        ≡ ok t)
      × (is_balanced t ≡ true)
      × (t ≡ record tx { postings = tx.postings ++ added })
      × All (λ p. p.account_id ≡ account) added
unfolding balance_with_fx_postings
balance_with_fx_postings_lem fresh tx account v = elim (Bool-cases (is_balanced tx)) [
  | inl b ↦ rw b (tx, [], refl, b, λ i. record tx { postings = sym (append-nil tx.postings) i }, tt)
  | inr nb ↦ rw nb (
    extended fresh tx account,
    added fresh tx account,
    rw
        (fx_postings_ok fresh 0 account (balance_per_currency tx)
          (tally-KnownKeys tx.postings [] v.known tt))
        (extended_checked fresh tx account v.checked),
    extended-is_balanced fresh tx account,
    refl,
    offsets_account fresh 0 account (balance_per_currency tx),
  )
]
