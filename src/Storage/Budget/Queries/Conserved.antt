-- ===== src/Storage/Budget/Queries/Conserved.antt =====
-- `balance_for_pool` against the sums of the posted postings, over one pool and over all.
use tulip_accounting.Prelude.{
  ℕ, ◌+◌, ◌≡◌, inl, inr, refl, ap, sym, ◌∙◌, arith, Bool, true, false, ◌&&◌, String, str_eq, Option,
  none, List, [], ◌∷◌, ◌++◌, ◌==◌, keep, All, if◌then◌else◌, Bool-cases,
}
use tulip_accounting.Prelude.Int.{pos}
use tulip_accounting.Decimal.{Decimal, nought, add}
use tulip_accounting.Decimal.Arithmetic.{add_comm, add_assoc, nought-add, add_zeros}
use tulip_accounting.Transactions.{Uuid, Date}
use tulip_accounting.Transactions.Balance.{sum_in, sum_in-append, net, net-tally}
use tulip_accounting.Allocation.Shadow.{is_shadow_posted}
use tulip_accounting.Storage.Tables.{keep-append}
use tulip_accounting.Storage.Budget.{Budget, ShadowHeader, ShadowRow, is_leg_of, leg_amounts}
use tulip_accounting.Storage.Budget.Queries.{posted_legs, up_to, in_currency, balance_for_pool}
use tulip_accounting.Storage.Budget.Shadow.Book.{entries, book}
use tulip_accounting.Storage.Budget.Queries.Settled.{IsSettled, IsSettledBook}

pub keep-all : (rows : List ShadowRow) → keep (λ p. true) rows ≡ rows
keep-all [] = refl
keep-all (p ∷ rows) = ap (λ ps. p ∷ ps) (keep-all rows)

-- A test of postings may as well be made on what the join without it gives.
pub posted_legs-keep :
    (hh : Uuid) (q : ShadowHeader → Bool) (w : ShadowRow → Bool) (rows : List ShadowRow)
    (hs : List ShadowHeader)
    → posted_legs hh q w rows hs ≡ keep w (posted_legs hh q (λ p. true) rows hs)
unfolding posted_legs
posted_legs-keep hh q w rows [] = refl
posted_legs-keep hh q w rows (h ∷ hs) = elim (Bool-cases (is_shadow_posted h.status && q h)) [
  | inl counted ↦
      let own = keep (is_leg_of hh h.id) rows in
      rw
        (
          counted,
          keep-all own,
          keep-append w own (posted_legs hh q (λ p. true) rows hs),
          posted_legs-keep hh q w rows hs,
        )
        refl
  | inr skipped ↦ rw skipped (posted_legs-keep hh q w rows hs)
]

-- What a pool holds in a currency is the sum of the posted postings on it in that currency.
pub balance_for_pool_lem :
    (hh pool_id : Uuid) (currency : Option String) (as_of : Option Date) (b : Budget) (c : String)
    → net c (balance_for_pool hh pool_id currency as_of b)
      ≡ sum_in c (
          leg_amounts (
            keep
              (λ p. p.pool_id == pool_id && in_currency currency p)
              (posted_legs hh (up_to as_of) (λ p. true) b.shadow_rows b.shadow_headers)))
unfolding balance_for_pool
balance_for_pool_lem hh pool_id currency as_of b c =
    let w = λ (p : ShadowRow). p.pool_id == pool_id && in_currency currency p in
    let own = posted_legs hh (up_to as_of) w b.shadow_rows b.shadow_headers in
    net-tally c (leg_amounts own) []
    ∙ nought-add (sum_in c (leg_amounts own))
    ∙ ap (λ ps. sum_in c (leg_amounts ps))
        (posted_legs-keep hh (up_to as_of) w b.shadow_rows b.shadow_headers)

pub leg_amounts-append :
    (xs ys : List ShadowRow) → leg_amounts (xs ++ ys) ≡ leg_amounts xs ++ leg_amounts ys
leg_amounts-append [] ys = refl
leg_amounts-append (p ∷ xs) ys = rw (leg_amounts-append xs ys) refl

-- No shadow transaction of another household has the identifier that a posting of this one names.
abbrev pub IsApartFrom : Uuid → List ShadowRow → ShadowHeader → Type 0
IsApartFrom household_id rows h =
    (h.household_id == household_id) ≡ false → keep (is_leg_of household_id h.id) rows ≡ []

settled_zero :
    (hh : Uuid) (c : String) (rows : List ShadowRow) (h : ShadowHeader)
    → IsSettled (record { header = h; legs = keep (is_leg_of h.household_id h.id) rows })
    → IsApartFrom hh rows h
    → is_shadow_posted h.status ≡ true
    → (sum_in c (leg_amounts (keep (is_leg_of hh h.id) rows))).coeff ≡ pos 0
settled_zero hh c rows h settled apart posted = elim (Bool-cases (h.household_id == hh)) [
  | inl own ↦ let same : h.household_id ≡ hh = ground arith in rw (← same) (settled posted c)
  | inr other ↦ rw (apart other) refl
]

legs_zero :
    (hh : Uuid) (c : String) (as_of : Option Date) (rows : List ShadowRow) (hs : List ShadowHeader)
    → IsSettledBook (entries rows hs)
    → All (IsApartFrom hh rows) hs
    → (sum_in c (leg_amounts (posted_legs hh (up_to as_of) (λ p. true) rows hs))).coeff ≡ pos 0
unfolding posted_legs
legs_zero hh c as_of rows [] settled apart = refl
legs_zero hh c as_of rows (h ∷ hs) (one, settled) (own, apart) =
    let legs = keep (is_leg_of hh h.id) rows in
    let rest = posted_legs hh (up_to as_of) (λ p. true) rows hs in
    let smaller = legs_zero hh c as_of rows hs settled apart in
    elim (Bool-cases (is_shadow_posted h.status && up_to as_of h)) [
      | inl counted ↦
          rw
            (
              counted,
              keep-all legs,
              leg_amounts-append legs rest,
              sum_in-append c (leg_amounts legs) (leg_amounts rest),
            )
            (add_zeros (sum_in c (leg_amounts legs)) (sum_in c (leg_amounts rest))
              (settled_zero hh c rows h one own (ground arith)) smaller)
      | inr skipped ↦ rw skipped smaller
    ]

-- How often an identifier is listed.
abbrev pub count_of : Uuid → List Uuid → ℕ
count_of id [] = 0
count_of id (k ∷ ks) = if id == k then count_of id ks + 1 else count_of id ks

-- The sum over pools of what the postings on each come to.
abbrev pool_sums : String → List ShadowRow → List Uuid → Decimal
pool_sums c legs [] = nought
pool_sums c legs (id ∷ ids) =
    add (sum_in c (leg_amounts (keep (λ p. p.pool_id == id && in_currency none p) legs)))
      (pool_sums c legs ids)

pool_sums-none : (c : String) (ids : List Uuid) → pool_sums c [] ids ≡ nought
pool_sums-none c [] = refl
pool_sums-none c (id ∷ ids) = rw (pool_sums-none c ids) (nought-add nought)

pool_sums-absent :
    (c : String) (p : ShadowRow) (legs : List ShadowRow) (ids : List Uuid)
    → count_of p.pool_id ids ≡ 0
    → pool_sums c (p ∷ legs) ids ≡ pool_sums c legs ids
pool_sums-absent c p legs [] e = refl
pool_sums-absent c p legs (id ∷ ids) e = elim (Bool-cases (p.pool_id == id)) [
  | inl own ↦ absurd (let n = rw own at e in omega arith)
  | inr other ↦ rw (other, pool_sums-absent c p legs ids (rw other at e)) refl
]

pool_sums-once :
    (c : String) (p : ShadowRow) (legs : List ShadowRow) (ids : List Uuid)
    → count_of p.pool_id ids ≡ 1
    → pool_sums c (p ∷ legs) ids
      ≡ (if str_eq p.currency c then add p.amount (pool_sums c legs ids) else pool_sums c legs ids)
pool_sums-once c p legs [] e = absurd (omega arith)
pool_sums-once c p legs (id ∷ ids) e =
    let here = sum_in c (leg_amounts (keep (λ q. q.pool_id == id && in_currency none q) legs)) in
    let more = pool_sums c legs ids in
    elim (Bool-cases (p.pool_id == id)) [
      | inl own ↦
          let rest : count_of p.pool_id ids ≡ 0 = (let n = rw own at e in omega arith) in
          rw (own, pool_sums-absent c p legs ids rest)
            (elim (Bool-cases (str_eq p.currency c)) [
              | inl same ↦ rw same (add_assoc p.amount here more)
              | inr differs ↦ rw differs refl
            ])
      | inr other ↦
          rw (other, pool_sums-once c p legs ids (rw other at e))
            (elim (Bool-cases (str_eq p.currency c)) [
              | inl same ↦ rw same (
                  sym (add_assoc here p.amount more)
                  ∙ ap (λ d. add d more) (add_comm here p.amount)
                  ∙ add_assoc p.amount here more)
              | inr differs ↦ rw differs refl
            ])
    ]

pool_sums_lem :
    (c : String) (legs : List ShadowRow) (ids : List Uuid)
    → All (λ p. count_of p.pool_id ids ≡ 1) legs
    → pool_sums c legs ids ≡ sum_in c (leg_amounts legs)
pool_sums_lem c [] ids h = pool_sums-none c ids
pool_sums_lem c (p ∷ legs) ids (once, h) =
    pool_sums-once c p legs ids once ∙ rw (pool_sums_lem c legs ids h) refl

-- The sum over pools of what each holds in a currency.
abbrev pub held : Uuid → Option Date → Budget → String → List Uuid → Decimal
held hh as_of b c [] = nought
held hh as_of b c (id ∷ ids) =
    add (net c (balance_for_pool hh id none as_of b)) (held hh as_of b c ids)

held_sums :
    (hh : Uuid) (as_of : Option Date) (b : Budget) (c : String) (ids : List Uuid)
    → held hh as_of b c ids
      ≡ pool_sums c (posted_legs hh (up_to as_of) (λ p. true) b.shadow_rows b.shadow_headers) ids
held_sums hh as_of b c [] = refl
held_sums hh as_of b c (id ∷ ids) =
    rw (balance_for_pool_lem hh id none as_of b c, held_sums hh as_of b c ids) refl

-- In a balanced shadow ledger in which no other household's transaction has an identifier that a
-- posting of this household names, the balances of a list of pools in which the pool of each posted
-- posting up to the date stands once sum to zero in every currency.
pub held_zero :
    (hh : Uuid) (as_of : Option Date) (b : Budget) (c : String) (ids : List Uuid)
    → IsSettledBook (book b)
    → All (IsApartFrom hh b.shadow_rows) b.shadow_headers
    → All
        (λ p. count_of p.pool_id ids ≡ 1)
        (posted_legs hh (up_to as_of) (λ p. true) b.shadow_rows b.shadow_headers)
    → (held hh as_of b c ids).coeff ≡ pos 0
held_zero hh as_of b c ids settled apart once =
    let legs = posted_legs hh (up_to as_of) (λ p. true) b.shadow_rows b.shadow_headers in
    rw (held_sums hh as_of b c ids, pool_sums_lem c legs ids once)
      (legs_zero hh c as_of b.shadow_rows b.shadow_headers settled apart)
