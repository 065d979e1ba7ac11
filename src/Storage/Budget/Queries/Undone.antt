-- ===== src/Storage/Budget/Queries/Undone.antt =====
-- The balances of pools before a save, after it, and after a void.
use tulip_accounting.Prelude.{
  ℕ, ◌≡◌, inl, inr, refl, ap, sym, ◌∙◌, arith, Bool, true, leb, false, ◌&&◌, String, str_eq, Option,
  none, some, List, [], ◌∷◌, ◌++◌, ◌==◌, keep, if◌then◌else◌, Bool-cases,
}
use tulip_accounting.Prelude.Results.{ok}
use tulip_accounting.Decimal.{Decimal, nought, add}
use tulip_accounting.Decimal.Arithmetic.{add_comm, nought-add}
use tulip_accounting.Transactions.{Uuid, Date}
use tulip_accounting.Transactions.Balance.{sum_in, sum_in-append, net}
use tulip_accounting.Allocation.Shadow.{
  ShadowPosting, ShadowTransaction, ShadowTxStatus, is_shadow_posted,
}
use tulip_accounting.Storage.Tables.{exists, keep-append}
use tulip_accounting.Storage.Budget.{
  Budget, ShadowHeader, ShadowRow, is_shadow, is_leg_of, leg_amounts,
}
use tulip_accounting.Storage.Budget.Queries.{posted_legs, up_to, in_currency, balance_for_pool}
use tulip_accounting.Storage.Budget.Queries.Conserved.{
  balance_for_pool_lem, leg_amounts-append, keep-all,
}
use tulip_accounting.Storage.Budget.Shadow.{shadow_rows_of, save_shadow}
use tulip_accounting.Storage.Rows.{stored}
use tulip_accounting.Storage.Budget.Shadow.Book.{is_stored_balanced}
use tulip_accounting.Storage.Budget.Shadow.Entries.{IsLinked, append_nil, keep-own, no_legs}
use tulip_accounting.Storage.Budget.Shadow.Saving.{
  fits, final_header, saved_budget, save_shadow_lem,
}

-- No shadow transaction of any household has the identifier.
abbrev pub IsFresh : Uuid → Budget → Type 0
IsFresh id b = exists (λ h. h.id == id) b.shadow_headers ≡ false

fresh_key :
    (hh id : Uuid) (hs : List ShadowHeader)
    → exists (λ h. h.id == id) hs ≡ false
    → exists (is_shadow hh id) hs ≡ false
fresh_key hh id [] e = refl
fresh_key hh id (h ∷ hs) e = ground (arith, fresh_key hh id hs (ground arith))

keep-foreign :
    (hh id key : Uuid) (ps : List ShadowPosting)
    → (key == id) ≡ false
    → keep (is_leg_of hh key) (shadow_rows_of hh id ps) ≡ []
keep-foreign hh id key [] e = refl
keep-foreign hh id key (p ∷ ps) e = ground (arith, keep-foreign hh id key ps e)

-- The postings of a new transaction join with no transaction that was there.
legs-others :
    (hh id : Uuid) (q : ShadowHeader → Bool) (w : ShadowRow → Bool) (rows : List ShadowRow)
    (ps : List ShadowPosting) (hs : List ShadowHeader)
    → exists (λ h. h.id == id) hs ≡ false
    → posted_legs hh q w (rows ++ shadow_rows_of hh id ps) hs ≡ posted_legs hh q w rows hs
unfolding posted_legs
legs-others hh id q w rows ps [] e = refl
legs-others hh id q w rows ps (h ∷ hs) e =
    let miss : (h.id == id) ≡ false = ground arith in
    rw
      (
        keep-append (is_leg_of hh h.id) rows (shadow_rows_of hh id ps),
        keep-foreign hh id h.id ps miss,
        append_nil (keep (is_leg_of hh h.id) rows),
        legs-others hh id q w rows ps hs (ground arith),
      )
      refl

append_assoc : (xs ys zs : List ShadowRow) → (xs ++ ys) ++ zs ≡ xs ++ (ys ++ zs)
append_assoc [] ys zs = refl
append_assoc (x ∷ xs) ys zs = ap (λ ws. x ∷ ws) (append_assoc xs ys zs)

legs-append :
    (hh : Uuid) (q : ShadowHeader → Bool) (w : ShadowRow → Bool) (rows : List ShadowRow)
    (xs ys : List ShadowHeader)
    → posted_legs hh q w rows (xs ++ ys) ≡ posted_legs hh q w rows xs ++ posted_legs hh q w rows ys
unfolding posted_legs
legs-append hh q w rows [] ys = refl
legs-append hh q w rows (h ∷ xs) ys = elim (Bool-cases (is_shadow_posted h.status && q h)) [
  | inl counted ↦
      rw (counted, legs-append hh q w rows xs ys)
        (sym (
          append_assoc (keep w (keep (is_leg_of hh h.id) rows)) (posted_legs hh q w rows xs)
            (posted_legs hh q w rows ys)))
  | inr skipped ↦ rw (skipped, legs-append hh q w rows xs ys) refl
]

-- What postings put on a pool in a currency, in the amounts that the columns hold.
abbrev pub put_on : Uuid → String → List ShadowPosting → Decimal
put_on pool_id c [] = nought
put_on pool_id c (p ∷ ps) =
    if p.pool_id == pool_id && str_eq p.amount.currency c
    then add (stored p.amount.amount) (put_on pool_id c ps)
    else put_on pool_id c ps

put_on_rows :
    (hh id pool_id : Uuid) (c : String) (ps : List ShadowPosting)
    → sum_in c (
        leg_amounts
          (keep (λ p. p.pool_id == pool_id && in_currency none p) (shadow_rows_of hh id ps)))
      ≡ put_on pool_id c ps
put_on_rows hh id pool_id c [] = refl
put_on_rows hh id pool_id c (p ∷ ps) = ground (arith, put_on_rows hh id pool_id c ps)

abbrev on_pool : Uuid → ShadowRow → Bool
on_pool pool_id p = p.pool_id == pool_id && in_currency none p

sum-added :
    (hh id pool_id : Uuid) (c : String) (legs : List ShadowRow) (ps : List ShadowPosting)
    (come : Bool)
    → sum_in c (
        leg_amounts (
          keep
            (on_pool pool_id)
            (legs ++ (if come then keep (λ p. true) (shadow_rows_of hh id ps) else []))))
      ≡ add
          (sum_in c (leg_amounts (keep (on_pool pool_id) legs)))
          (if come then put_on pool_id c ps else nought)
sum-added hh id pool_id c legs ps true =
    let before = keep (on_pool pool_id) legs in
    let mine = shadow_rows_of hh id ps in
    rw
      (
        keep-all mine,
        keep-append (on_pool pool_id) legs mine,
        leg_amounts-append before (keep (on_pool pool_id) mine),
        sum_in-append c (leg_amounts before) (leg_amounts (keep (on_pool pool_id) mine)),
        put_on_rows hh id pool_id c ps,
      )
      refl
sum-added hh id pool_id c legs ps false =
    let before = sum_in c (leg_amounts (keep (on_pool pool_id) legs)) in
    rw (append_nil legs, add_comm before nought) (sym (nought-add before))

-- Has a date come, at another or at any?
abbrev pub has_come : Date → Option Date → Bool
has_come date none = true
has_come date (some as_of) = leb date as_of

module _ (hh : Uuid) (tx : ShadowTransaction) (now : ℕ) (b : Budget) (linked : IsLinked b)
    (fresh : IsFresh tx.id b) where
  -- One transaction more, under whatever header of its identifier.
  legs-added :
      (q : ShadowHeader → Bool) (w : ShadowRow → Bool) (h : ShadowHeader)
      → h.id ≡ tx.id
      → posted_legs hh q w
          (b.shadow_rows ++ shadow_rows_of hh tx.id tx.postings)
          (b.shadow_headers ++ (h ∷ []))
        ≡ posted_legs hh q w b.shadow_rows b.shadow_headers
          ++ (if is_shadow_posted h.status && q h
              then keep w (shadow_rows_of hh tx.id tx.postings)
              else [])
  unfolding posted_legs
  legs-added q w h named =
      let mine = shadow_rows_of hh tx.id tx.postings in
      let own : keep (is_leg_of hh h.id) (b.shadow_rows ++ mine) ≡ mine =
        rw
          (
            named,
            keep-append (is_leg_of hh tx.id) b.shadow_rows mine,
            no_legs hh tx.id b.shadow_rows b.shadow_headers
                (fresh_key hh tx.id b.shadow_headers fresh) linked,
          )
          (keep-own hh tx.id tx.postings) in
      legs-append hh q w (b.shadow_rows ++ mine) b.shadow_headers (h ∷ [])
      ∙ rw (legs-others hh tx.id q w b.shadow_rows tx.postings b.shadow_headers fresh, own)
          (elim (Bool-cases (is_shadow_posted h.status && q h)) [
            | inl counted ↦ rw (counted, append_nil (keep w mine)) refl
            | inr skipped ↦ rw skipped refl
          ])

  pub saved_ok :
      fits hh tx now b ≡ true
      → is_stored_balanced tx ≡ true
      → save_shadow hh tx now b ≡ ok (final_header hh tx now b, saved_budget hh tx now b)
  saved_ok fit balanced =
      save_shadow_lem hh tx now b linked
      ∙ rw (fresh_key hh tx.id b.shadow_headers fresh, fit, balanced) (ground arith)

  -- What a pool holds once the transaction is saved.
  saved_held :
      tx.status ≡ ShadowTxStatus.posted
      → (pool_id : Uuid) (as_of : Option Date) (c : String)
      → net c (balance_for_pool hh pool_id none as_of (saved_budget hh tx now b))
        ≡ add (net c (balance_for_pool hh pool_id none as_of b)) (
            if up_to as_of (final_header hh tx now b) then put_on pool_id c tx.postings else nought)
  saved_held posted pool_id as_of c =
      let final = final_header hh tx now b in
      let legs = posted_legs hh (up_to as_of) (λ p. true) b.shadow_rows b.shadow_headers in
      let onto = λ (ps : List ShadowRow). sum_in c (leg_amounts (keep (on_pool pool_id) ps)) in
      let gate : is_shadow_posted tx.status && up_to as_of final ≡ up_to as_of final =
        (let counted : is_shadow_posted tx.status ≡ true = rw posted refl in ground arith) in
      balance_for_pool_lem hh pool_id none as_of (saved_budget hh tx now b) c
      ∙ ap onto (legs-added (up_to as_of) (λ p. true) final refl)
      ∙ ap
          (λ t.
            onto
              (legs ++ (if t then keep (λ p. true) (shadow_rows_of hh tx.id tx.postings) else [])))
          gate
      ∙ sum-added hh tx.id pool_id c legs tx.postings (up_to as_of final)
      ∙ ap (λ d. add d (if up_to as_of final then put_on pool_id c tx.postings else nought))
          (sym (balance_for_pool_lem hh pool_id none as_of b c))

  pub save_shadow-held :
      tx.status ≡ ShadowTxStatus.posted
      → (pool_id : Uuid) (c : String)
      → net c (balance_for_pool hh pool_id none none (saved_budget hh tx now b))
        ≡ add (net c (balance_for_pool hh pool_id none none b)) (put_on pool_id c tx.postings)
  save_shadow-held posted pool_id c = saved_held posted pool_id none c
