-- ===== src/Transactions/Order.antt =====
-- The order of the postings does not matter to the balance.
use mathlib.Core.Logic.{∥∥₁_elim}
use mathlib.Core.List.{Perm, Permᴰ}
use tulip_accounting.Prelude.{
  ◌≡◌, refl, sym, ap, ◌∙◌, arith, String, true, List, Bool-cases, inl, inr,
}
use tulip_accounting.Decimal.{Decimal, add}
use tulip_accounting.Decimal.Arithmetic.{add_comm, add_assoc}
use tulip_accounting.Transactions.{Posting, Transaction, amounts, is_balanced}
use tulip_accounting.Transactions.Balance.{sum_in, is_balanced_iff}

add_left_comm : (a b c : Decimal) → add a (add b c) ≡ add b (add a c)
add_left_comm a b c = sym (add_assoc a b c) ∙ ap (λ d. add d c) (add_comm a b) ∙ add_assoc b a c

sum_in-perm :
    (c : String) {ps qs : List Posting}
    → Permᴰ ps qs
    → sum_in c (amounts ps) ≡ sum_in c (amounts qs)
sum_in-perm c Permᴰ.nil = refl
sum_in-perm c (Permᴰ.cons {a = p} e r) = rw (← e, sum_in-perm c r) refl
sum_in-perm c (Permᴰ.swap {a = p} {b = q} {l = l} e f) =
    rw (← e, ← f)
      (ground (arith, add_left_comm p.amount.amount q.amount.amount (sum_in c (amounts l))))
sum_in-perm c (Permᴰ.trans r t) = sum_in-perm c r ∙ sum_in-perm c t

-- Two transactions whose postings are the same up to order are balanced alike.
pub is_balanced-perm :
    (t u : Transaction) → Perm t.postings u.postings → is_balanced t ≡ is_balanced u
is_balanced-perm t u perm = ∥∥₁_elim perm (hlevel) λ r.
    let there_too = λ (h : is_balanced t ≡ true).
      (is_balanced_iff u).1 λ c. rw (← sum_in-perm c r) ((is_balanced_iff t).0 h c) in
    let back = λ (h : is_balanced u ≡ true).
      (is_balanced_iff t).1 λ c. rw (sum_in-perm c r) ((is_balanced_iff u).0 h c) in
    elim (Bool-cases (is_balanced t)) [
      | inl b ↦ b ∙ sym (there_too b)
      | inr n ↦ elim (Bool-cases (is_balanced u)) [ inl b ↦ back b ∙ sym b | inr m ↦ n ∙ sym m ]
    ]
