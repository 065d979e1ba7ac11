-- ===== src/Services/Reconciling/Complete.antt =====
-- When a reconciliation can be completed, and what is left of it then.
use tulip_accounting.Prelude.{
  ℕ, ◌≡◌, ◌⊎◌, Option, none, List, [], ◌∷◌, keep, if◌then◌else◌, ◌==◌, inl, inr, refl, ap, sym, ◌∙◌,
  arith, Bool, true, false, ◌&&◌, some, max, ◌-◌, All, Bool-cases, length,
}
use tulip_accounting.Prelude.Int.{+ℤ_parts, -ℤ_parts, -ℤ◌}
use tulip_accounting.Prelude.Results.{ok, is_ok}
use tulip_accounting.Decimal.{Decimal, nought, add, sub, neg, eq, is_zero, at}
use tulip_accounting.Decimal.Arithmetic.{nought-add, shift_neg, add_assoc, neg-add}
use tulip_accounting.Prelude.Lists.{At, here, there}
use tulip_accounting.Transactions.{Uuid}
use tulip_accounting.Storage.Tables.{exists, find-update, All-update, All-rows}
use tulip_accounting.Storage.Rows.{
  Db, Header, PostingRow, MatchRow, is_posting_of, Reconciliation, ReconciliationStatus,
  is_reconciliation,
}
use tulip_accounting.Storage.Reconciliations.{
  refers_to, is_match_of, get_reconciliation, is_matched, complete, completed,
}
use tulip_accounting.Services.Reconciling.{
  is_in_progress, matched_net, carry_forward_net, sum_amounts, residual, complete_balanced,
}

-- A difference is zero exactly when its two sides have one value.
is_zero-sub : (a b : Decimal) → is_zero (sub a b) ≡ eq a b
unfolding sub eq neg add
is_zero-sub a b =
    let s = max a.places b.places in
    let e = shift_neg (s - b.places) b.coeff in
    rw e (ground (arith, +ℤ_parts (at s a) (-ℤ◌ (at s b)), -ℤ_parts (at s b)))

sub-sub : (a b c : Decimal) → sub (sub a b) c ≡ sub a (add b c)
unfolding sub
sub-sub a b c = add_assoc a (neg b) (neg c) ∙ ap (add a) (sym (neg-add b c))

-- The sum of the amounts of the elements that pass a test.
abbrev pub total {ℓ} : {A : Type ℓ} → (A → Bool) → (A → Decimal) → List A → Decimal
total p f [] = nought
total p f (x ∷ xs) = if p x then add (f x) (total p f xs) else total p f xs

abbrev pub is_value : Option Uuid → Uuid → Bool
is_value none id = false
is_value (some a) id = a == id

-- The sum of the amounts of the matches of a reconciliation.
abbrev pub match_total : Uuid → Uuid → List MatchRow → Decimal
match_total household_id id =
    total (λ m. m.household_id == household_id && m.reconciliation_id == id) (λ m. m.match_amount)

-- The sum of the amounts that a transaction's postings put on an account.
abbrev pub posting_total : Uuid → Uuid → Uuid → List PostingRow → Decimal
posting_total household_id account_id tx_id =
    total
      (λ p.
        p.household_id == household_id && p.transaction_id == tx_id && p.account_id == account_id)
      (λ p. p.amount)

-- The sum over the transactions that are carried forward from a reconciliation.
abbrev pub carried_total : Uuid → Reconciliation → List PostingRow → List Header → Decimal
carried_total household_id recon postings =
    total
      (λ h.
        h.household_id == household_id
        && is_value h.carried_forward_from_reconciliation_id recon.id)
      (λ h. posting_total household_id recon.account_id h.id postings)

-- The statement's ending balance is its starting balance, what was matched and what was carried forward.
abbrev pub balances : Uuid → Reconciliation → Db → Bool
balances household_id recon db = eq recon.statement_ending_balance (
    add recon.statement_starting_balance (
      add (match_total household_id recon.id db.matches)
        (carried_total household_id recon db.postings db.headers)))

matched_net_total :
    (hh id : Uuid) (ms : List MatchRow)
    → matched_net (keep (is_match_of hh id) ms) ≡ match_total hh id ms
unfolding matched_net
matched_net_total hh id [] = refl
matched_net_total hh id (m ∷ ms) = ground (arith, matched_net_total hh id ms)

sum_amounts_total :
    (hh account id : Uuid) (ps : List PostingRow) (rest : Decimal)
    → sum_amounts account (keep (is_posting_of hh id) ps) rest
      ≡ add (posting_total hh account id ps) rest
sum_amounts_total hh account id [] rest = sym (nought-add rest)
sum_amounts_total hh account id (p ∷ ps) rest =
    let more = sum_amounts_total hh account id ps rest in
    elim (Bool-cases (is_posting_of hh id p)) [
      | inr other ↦ rw other (ground arith)
      | inl own ↦ elim (Bool-cases (p.account_id == account)) [
        | inl same ↦
            rw (own, same, more) (sym (add_assoc p.amount (posting_total hh account id ps) rest))
        | inr elsewhere ↦ rw (own, elsewhere) more
      ]
    ]

refers_to-is_value : (o : Option Uuid) (id : Uuid) → refers_to o id ≡ is_value o id
refers_to-is_value none id = refl
refers_to-is_value (some a) id = refl

carry_forward_net_total :
    (hh : Uuid) (recon : Reconciliation) (ps : List PostingRow) (hs : List Header)
    → carry_forward_net hh recon ps hs ≡ carried_total hh recon ps hs
unfolding carry_forward_net
carry_forward_net_total hh recon ps [] = refl
carry_forward_net_total hh recon ps (h ∷ hs) =
    rw
      (
        sum_amounts_total hh recon.account_id h.id ps (carry_forward_net hh recon ps hs),
        carry_forward_net_total hh recon ps hs,
        refers_to-is_value h.carried_forward_from_reconciliation_id recon.id,
      )
      refl

residual_zero :
    (household_id : Uuid) (recon : Reconciliation) (db : Db)
    → is_zero (residual household_id recon db) ≡ balances household_id recon db
residual_zero hh recon db =
    let other =
      add (match_total hh recon.id db.matches) (carried_total hh recon db.postings db.headers) in
    rw
      (
        matched_net_total hh recon.id db.matches,
        carry_forward_net_total hh recon db.postings db.headers,
      )
      (ap is_zero (sub-sub recon.statement_ending_balance recon.statement_starting_balance other)
        ∙ is_zero-sub recon.statement_ending_balance (add recon.statement_starting_balance other))

-- The request to complete a reconciliation that is there is granted exactly when it is in progress
-- and its ending balance equals its starting balance plus the amounts of its matches plus the
-- amounts of the postings on its account of the transactions carried forward from it.
pub complete_balanced_lem :
    (household_id : Uuid) (recon stored : Reconciliation) (now : ℕ) (db : Db)
    → get_reconciliation household_id recon.id db ≡ some stored
    → is_ok (complete_balanced household_id recon now db)
      ≡ (is_in_progress recon.status && balances household_id recon db)
unfolding complete_balanced complete
complete_balanced_lem hh recon stored now db found =
    elim (Bool-cases (is_in_progress recon.status)) [
      | inl open_ ↦ elim (Bool-cases (balances hh recon db)) [
        | inl even ↦ rw (open_, residual_zero hh recon db, even, found) refl
        | inr odd ↦ rw (open_, residual_zero hh recon db, odd) refl
      ]
      | inr closed ↦ rw closed refl
    ]

-- A match of the reconciliation that names a transaction is found by the test of `complete`.
named_match :
    (hh id tx : Uuid) (ms : List MatchRow) {m : MatchRow}
    → At m ms
    → m.household_id ≡ hh
    → m.reconciliation_id ≡ id
    → m.ledger_transaction_id ≡ tx
    → exists (λ k. k.ledger_transaction_id == tx) (keep (is_match_of hh id) ms) ≡ true
named_match hh id tx [] listed h r t = elim listed [ ]
named_match hh id tx (m ∷ ms) here h r t = ground arith
named_match hh id tx (k ∷ ms) (there listed) h r t =
    ground (arith, named_match hh id tx ms listed h r t)

All-At : (xs ys : List Header) → ((h : Header) → At h xs → At h ys) → All (λ h. At h ys) xs
All-At [] ys into = tt
All-At (x ∷ xs) ys into = (into x here, All-At xs ys (λ h listed. into h (there listed)))

All-listed : (hs : List Header) → All (λ h. At h hs) hs
All-listed hs = All-At hs hs (λ h listed. listed)

-- A match of the reconciliation that names a transaction.
abbrev pub IsNamedBy : Uuid → Uuid → List MatchRow → Uuid → Type 0
IsNamedBy hh id ms tx =
    (m : MatchRow) × At m ms
    × (m.household_id ≡ hh)
    × (m.reconciliation_id ≡ id)
    × (m.ledger_transaction_id ≡ tx)

match_named :
    (hh id tx : Uuid) (ms : List MatchRow)
    → exists (λ k. k.ledger_transaction_id == tx) (keep (is_match_of hh id) ms) ≡ true
    → IsNamedBy hh id ms tx
match_named hh id tx [] e = absurd (cc)
match_named hh id tx (m ∷ ms) e =
    elim (Bool-cases (is_match_of hh id m && m.ledger_transaction_id == tx)) [
      | inl own ↦ (m, here, ground arith, ground arith, ground arith)
      | inr other ↦
          let (k, listed, h, r, t) = match_named hh id tx ms (ground arith) in
          (k, there listed, h, r, t)
    ]

-- For a stored reconciliation that is in progress and balances, completing succeeds, counts the
-- matches, sets the row's status and time, and sets every transaction of the household that one of
-- its matches names to the reconciliation, and changes no other transaction.
pub complete_balanced_ok :
    (household_id : Uuid) (recon : Reconciliation) (now : ℕ) (db : Db)
    → get_reconciliation household_id recon.id db ≡ some recon
    → is_in_progress recon.status ≡ true
    → balances household_id recon db ≡ true
    → (after : Db) × (complete_balanced household_id recon now db
        ≡ ok (
          length (
              keep
                (λ m. m.household_id == household_id && m.reconciliation_id == recon.id)
                db.matches),
          after,
        ))
      × (get_reconciliation household_id recon.id after
          ≡ some (record recon { status = ReconciliationStatus.complete; completed_at = some now }))
      × All
          (λ h.
            (m : MatchRow)
            → At m db.matches
            → m.household_id ≡ household_id
            → m.reconciliation_id ≡ recon.id
            → h.household_id ≡ household_id
            → m.ledger_transaction_id ≡ h.id
            → (h.reconciliation_id ≡ some recon.id) × (h.reconciled_at ≡ some now))
          after.headers
      × All
          (λ h.
            At h db.headers
            ⊎ ((h.household_id ≡ household_id) × IsNamedBy household_id recon.id db.matches h.id))
          after.headers
unfolding complete_balanced complete
complete_balanced_ok hh recon now db found open_ even = (
  completed hh recon.id now db,
  rw (open_, residual_zero hh recon db, even, found) refl,
  find-update (is_reconciliation hh recon.id)
      (λ r. record r { status = ReconciliationStatus.complete; completed_at = some now })
      db.reconciliations recon (λ r own. own) found,
  All-update (is_matched hh recon.id db)
      (λ h. record h { reconciliation_id = some recon.id; reconciled_at = some now }) db.headers
      (λ h _ hit m listed own of_it ours names. (refl, refl))
      (λ h _ miss m listed own of_it ours names. absurd (
        let named = named_match hh recon.id h.id db.matches listed own of_it names in ground arith))
      (All-rows db.headers),
  All-update (is_matched hh recon.id db)
      (λ h. record h { reconciliation_id = some recon.id; reconciled_at = some now }) db.headers
      (λ h listed hit. inr (ground arith, match_named hh recon.id h.id db.matches (ground arith)))
      (λ h listed miss. inl listed) (All-listed db.headers),
)
