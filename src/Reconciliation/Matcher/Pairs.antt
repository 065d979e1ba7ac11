-- ===== src/Reconciliation/Matcher/Pairs.antt =====
-- `find_candidates` never raises, and returns exactly the pairs that qualify, in order.
use mathlib.Core.Option.{some-injective}
use tulip_accounting.Prelude.{
  ◌+◌, ◌≤◌, ◌≡◌, ◌≢◌, ◌↔◌, inl, inr, refl, sym, arith, true, false, ◌==◌, some, List, [], ◌∷◌, ◌++◌,
  Bool-cases, Option-cases, if◌then◌else◌, subst,
}
use tulip_accounting.Prelude.Lists.{
  At, here, there, At-cons, At-append, At-append_left, At-append_right,
}
use tulip_accounting.Prelude.Results.{ok}
use tulip_accounting.Money.{money_eq}
use tulip_accounting.Transactions.{Uuid, Posting, Transaction, TransactionStatus, in_ledger}
use tulip_accounting.Reconciliation.Score.{Similarity, IsOrdered}
use tulip_accounting.Reconciliation.Confidence.{
  CandidateMatch, check_candidate, describe_similarity_bounds,
}
use tulip_accounting.Reconciliation.StatementLine.{StatementLine}
use tulip_accounting.Reconciliation.Matcher.{
  first_on, is_in, eligible_posting, eligible, candidate, is_skipped, match_line, match_lines,
  pair_of, find_candidates,
}
use tulip_accounting.Reconciliation.Matcher.Sort.{sort_by, sort_by-At, sort_by-IsSorted, IsSorted}

-- The first posting of a list that is on the account.
pub data IsFirstOn (account : Uuid) : List Posting → Posting → Type 0 where
  first : {p : Posting} {ps : List Posting} → p.account_id ≡ account → IsFirstOn account (p ∷ ps) p
  later :
      {p q : Posting} {ps : List Posting}
      → q.account_id ≢ account
      → IsFirstOn account ps p
      → IsFirstOn account (q ∷ ps) p

-- A transaction is open to matching by a posting: it is in the ledger, not reconciled yet, and the
-- posting is its first on the account.
abbrev pub IsEligible : Uuid → List Uuid → Transaction → Posting → Type 0
IsEligible account reconciled tx p =
    (tx.status ≢ TransactionStatus.pending)
    × ¬ (At tx.id reconciled)
    × IsFirstOn account tx.postings p

-- A line and a transaction make a candidate by a posting: the transaction is open to matching, the
-- amounts are equal, and the dates are at most three days apart.
abbrev pub IsCandidatePair : Uuid → List Uuid → StatementLine → Transaction → Posting → Type 0
IsCandidatePair account reconciled line tx p =
    IsEligible account reconciled tx p
    × (money_eq p.amount line.amount ≡ true)
    × (line.posted_date ≤ tx.date + 3)
    × (tx.date ≤ line.posted_date + 3)

first_on_sound :
    (account : Uuid) (ps : List Posting) (p : Posting)
    → first_on account ps ≡ some p
    → IsFirstOn account ps p
first_on_sound account [] p h = absurd (cc)
first_on_sound account (q ∷ ps) p h = elim (Bool-cases (q.account_id == account)) [
  | inl same ↦
      let e : q ≡ p = some-injective q p (rw same at h) in
      subst (IsFirstOn account (q ∷ ps)) e (first (ground arith))
  | inr other ↦ later (ground arith) (first_on_sound account ps p (rw other at h))
]

first_on_complete :
    {account : Uuid} {ps : List Posting} {p : Posting}
    → IsFirstOn account ps p
    → first_on account ps ≡ some p
first_on_complete (first e) = ground arith
first_on_complete (later n f) = ground (arith, first_on_complete f)

is_in_sound : (id : Uuid) (ids : List Uuid) → is_in id ids ≡ true → At id ids
is_in_sound id [] h = absurd (cc)
is_in_sound id (j ∷ ids) h = elim (Bool-cases (j == id)) [
  | inl same ↦ let e : id ≡ j = ground arith in subst (λ k. At id (k ∷ ids)) e here
  | inr other ↦ there (is_in_sound id ids (rw other at h))
]

is_in_complete : {id : Uuid} {ids : List Uuid} → At id ids → is_in id ids ≡ true
is_in_complete here = ground arith
is_in_complete (there m) = ground (arith, is_in_complete m)

not_pending : (s : TransactionStatus) → (in_ledger s ≡ true) ↔ (s ≢ TransactionStatus.pending)
not_pending s = (λ h e. ground arith, λ n. ground arith)

eligible_posting_iff :
    (account : Uuid) (reconciled : List Uuid) (tx : Transaction) (p : Posting)
    → (eligible_posting account reconciled tx ≡ some p) ↔ IsEligible account reconciled tx p
eligible_posting_iff account reconciled tx p = (
  λ h.
      let posted : in_ledger tx.status ≡ true = ground arith in
      let free : is_in tx.id reconciled ≡ false = ground arith in
      let found : first_on account tx.postings ≡ some p = ground arith in
      (
        (not_pending tx.status).0 posted,
        λ m. let taken = is_in_complete m in ground arith,
        first_on_sound account tx.postings p found,
      ),
  λ h.
      let posted = (not_pending tx.status).1 h.0 in
      let found = first_on_complete h.2 in
      elim (Bool-cases (is_in tx.id reconciled)) [
        | inl taken ↦ absurd (h.1 (is_in_sound tx.id reconciled taken))
        | inr free ↦ ground arith
      ],
)

eligible_sound :
    (account : Uuid) (reconciled : List Uuid) (txs : List Transaction) (e : Transaction × Posting)
    → At e (eligible account reconciled txs)
    → At e.0 txs × (eligible_posting account reconciled e.0 ≡ some e.1)
unfolding eligible
eligible_sound account reconciled [] e m = elim m [ ]
eligible_sound account reconciled (tx ∷ txs) e m =
    elim (Option-cases (eligible_posting account reconciled tx)) [
      | inl skip ↦
          let (n, f) = eligible_sound account reconciled txs e (rw (skip, eligible) at m) in
          (there n, f)
      | inr (p, found) ↦ elim (At-cons (rw (found, eligible) at m)) [
        | inl e_same ↦
            subst (λ d. At d.0 (tx ∷ txs) × (eligible_posting account reconciled d.0 ≡ some d.1))
              (sym e_same) (here, found)
        | inr rest ↦ let (n, f) = eligible_sound account reconciled txs e rest in (there n, f)
      ]
    ]

eligible_complete :
    (account : Uuid) (reconciled : List Uuid) {tx : Transaction} {txs : List Transaction}
    (p : Posting)
    → At tx txs
    → eligible_posting account reconciled tx ≡ some p
    → At (tx, p) (eligible account reconciled txs)
unfolding eligible
eligible_complete account reconciled p here f = rw (f, eligible) here
eligible_complete account reconciled p (there {x = t} m) f =
    let rest = eligible_complete account reconciled p m f in
    elim (Option-cases (eligible_posting account reconciled t)) [
      | inl skip ↦ rw (skip, eligible) rest
      | inr (q, found) ↦ rw (found, eligible) (there rest)
    ]

module _ (s : Similarity) (laws : IsOrdered s) where
  candidate_ok :
      (line : StatementLine) (tx : Transaction)
      → check_candidate s (candidate s line tx) ≡ ok (candidate s line tx)
  unfolding check_candidate
  candidate_ok line tx =
      let (low, high) = describe_similarity_bounds s laws line.description tx.description in
      rw (low, high) refl

  -- What `match_line` returns.
  abbrev pairs_of : StatementLine → List (Transaction × Posting) → List (CandidateMatch s)
  pairs_of line [] = []
  pairs_of line (e ∷ es) =
      if is_skipped s line e then pairs_of line es else candidate s line e.0 ∷ pairs_of line es

  abbrev all_pairs : List StatementLine → List (Transaction × Posting) → List (CandidateMatch s)
  all_pairs [] es = []
  all_pairs (line ∷ lines) es = pairs_of line es ++ all_pairs lines es

  match_line_ok :
      (line : StatementLine) (es : List (Transaction × Posting))
      → match_line s line es ≡ ok (pairs_of line es)
  unfolding match_line
  match_line_ok line [] = refl
  match_line_ok line (e ∷ es) = elim (Bool-cases (is_skipped s line e)) [
    | inl skip ↦ rw skip (match_line_ok line es)
    | inr match ↦ rw (match, candidate_ok line e.0, match_line_ok line es) refl
  ]

  match_lines_ok :
      (lines : List StatementLine) (es : List (Transaction × Posting))
      → match_lines s lines es ≡ ok (all_pairs lines es)
  unfolding match_lines
  match_lines_ok [] es = refl
  match_lines_ok (line ∷ lines) es = rw (match_line_ok line es, match_lines_ok lines es) refl

  pairs_of_sound :
      (line : StatementLine) (es : List (Transaction × Posting)) (c : CandidateMatch s)
      → At c (pairs_of line es)
      → (e : Transaction × Posting) × At e es
        × (is_skipped s line e ≡ false)
        × (c ≡ candidate s line e.0)
  pairs_of_sound line [] c m = elim m [ ]
  pairs_of_sound line (e ∷ es) c m = elim (Bool-cases (is_skipped s line e)) [
    | inl skip ↦
        let (d, n, k, same) = pairs_of_sound line es c (rw skip at m) in (d, there n, k, same)
    | inr match ↦ elim (At-cons (rw match at m)) [
      | inl same ↦ (e, here, match, same)
      | inr rest ↦ let (d, n, k, same) = pairs_of_sound line es c rest in (d, there n, k, same)
    ]
  ]

  pairs_of_complete :
      (line : StatementLine) {e : Transaction × Posting} {es : List (Transaction × Posting)}
      → At e es
      → is_skipped s line e ≡ false
      → At (candidate s line e.0) (pairs_of line es)
  pairs_of_complete line here k = rw k here
  pairs_of_complete line {es = d ∷ es} (there m) k =
      let rest = pairs_of_complete line m k in
      elim (Bool-cases (is_skipped s line d)) [
        | inl skip ↦ rw skip rest
        | inr match ↦ rw match (there rest)
      ]

  all_pairs_sound :
      (lines : List StatementLine) (es : List (Transaction × Posting)) (c : CandidateMatch s)
      → At c (all_pairs lines es)
      → (line : StatementLine) × At line lines × At c (pairs_of line es)
  all_pairs_sound [] es c m = elim m [ ]
  all_pairs_sound (line ∷ lines) es c m = elim (At-append (pairs_of line es) m) [
    | inl own ↦ (line, here, own)
    | inr rest ↦ let (l, n, k) = all_pairs_sound lines es c rest in (l, there n, k)
  ]

  all_pairs_complete :
      {line : StatementLine} {lines : List StatementLine} (es : List (Transaction × Posting))
      {c : CandidateMatch s}
      → At line lines
      → At c (pairs_of line es)
      → At c (all_pairs lines es)
  all_pairs_complete es (here {xs = lines}) m = At-append_left (all_pairs lines es) m
  all_pairs_complete es (there {x = l} n) m =
      At-append_right (pairs_of l es) (all_pairs_complete es n m)

  is_skipped_iff :
      (line : StatementLine) (e : Transaction × Posting)
      → (is_skipped s line e ≡ false) ↔ (
          (money_eq e.1.amount line.amount ≡ true)
          × (line.posted_date ≤ e.0.date + 3)
          × (e.0.date ≤ line.posted_date + 3))
  is_skipped_iff line e = ground arith

  -- The matcher never raises. A candidate is returned exactly for a line and a transaction of the
  -- arguments that qualify (the transaction is in the ledger and not reconciled, its first posting
  -- on the account has the line's amount, and the dates are at most three days apart), and the
  -- candidates are in the order of their pairs of identifiers.
  pub find_candidates_lem :
      (lines : List StatementLine) (txs : List Transaction) (account : Uuid)
      (reconciled : List Uuid)
      → (out : List (CandidateMatch s)) × (find_candidates s lines txs account reconciled ≡ ok out)
        × IsSorted (pair_of s) out
        × ((c : CandidateMatch s)
            → At c out
            → (line : StatementLine) × (tx : Transaction) × (p : Posting) × At line lines
              × At tx txs
              × IsCandidatePair account reconciled line tx p
              × (c ≡ candidate s line tx))
        × ((line : StatementLine) (tx : Transaction) (p : Posting)
            → At line lines
            → At tx txs
            → IsCandidatePair account reconciled line tx p
            → At (candidate s line tx) out)
  unfolding find_candidates
  find_candidates_lem lines txs account reconciled =
      let es = eligible account reconciled txs in
      let found = all_pairs lines es in
      (
        sort_by (pair_of s) found,
        rw (match_lines_ok lines es) refl,
        sort_by-IsSorted (pair_of s) found,
        λ c m.
            let (line, l, k) = all_pairs_sound lines es c ((sort_by-At (pair_of s) found).0 m) in
            let (e, n, kept, same) = pairs_of_sound line es c k in
            let (t, f) = eligible_sound account reconciled txs e n in
            let (amount, early, late) = (is_skipped_iff line e).0 kept in
            (
              line,
              e.0,
              e.1,
              l,
              t,
              ((eligible_posting_iff account reconciled e.0 e.1).0 f, amount, early, late),
              same,
            ),
        λ line tx p l t (open_to, amount, early, late).
            let posting = (eligible_posting_iff account reconciled tx p).1 open_to in
            let kept = (is_skipped_iff line (tx, p)).1 (amount, early, late) in
            (sort_by-At (pair_of s) found).1 (
              all_pairs_complete es l
                (pairs_of_complete line (eligible_complete account reconciled p t posting) kept)),
      )
