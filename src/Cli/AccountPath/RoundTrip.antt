-- ===== src/Cli/AccountPath/RoundTrip.antt =====
-- `escape_segment` against `split_path` and `unescape_segment`.
use tulip_accounting.Prelude.{
  ℕ, ◌≡◌, refl, ap, sym, ◌∙◌, arith, false, none, some, List, [], ◌∷◌, ◌++◌, ◌==◌, if◌then◌else◌,
  All,
}
use tulip_accounting.Cli.AccountPath.{
  Text, escape_segment, unescape_from, unescape_segment, scan, strip, strip_all, is_empty,
  any_empty, unless_empty, split_path, join_colon,
}

append_nil : (xs : Text) → xs ++ [] ≡ xs
append_nil [] = refl
append_nil (x ∷ xs) = ap (λ ys. x ∷ ys) (append_nil xs)

append_assoc : (xs ys zs : Text) → (xs ++ ys) ++ zs ≡ xs ++ (ys ++ zs)
append_assoc [] ys zs = refl
append_assoc (x ∷ xs) ys zs = ap (λ ws. x ∷ ws) (append_assoc xs ys zs)

-- What one character is escaped to.
abbrev escaped : ℕ → Text
escaped c = if c == 92 then 92 ∷ 92 ∷ [] else if c == 58 then 92 ∷ 58 ∷ [] else c ∷ []

escape_step : (c : ℕ) (cs : Text) → escape_segment (c ∷ cs) ≡ escaped c ++ escape_segment cs
unfolding escape_segment
escape_step c cs = ground arith

-- Reading one escaped character adds it to the segment.
scan-escaped :
    (c : ℕ) (current rest : Text)
    → scan false current (escaped c ++ rest) ≡ scan false (current ++ (c ∷ [])) rest
unfolding scan
scan-escaped c current rest = ground arith

scan-escape :
    (name current rest : Text)
    → scan false current (escape_segment name ++ rest) ≡ scan false (current ++ name) rest
unfolding escape_segment
scan-escape [] current rest = ap (λ s. scan false s rest) (sym (append_nil current))
scan-escape (c ∷ cs) current rest =
    ap (λ s. scan false current (s ++ rest)) (escape_step c cs)
    ∙ ap (scan false current) (append_assoc (escaped c) (escape_segment cs) rest)
    ∙ scan-escaped c current (escape_segment cs ++ rest)
    ∙ scan-escape cs (current ++ (c ∷ [])) rest
    ∙ ap (λ s. scan false s rest) (append_assoc current (c ∷ []) cs)

abbrev pub escape_all : List Text → List Text
escape_all [] = []
escape_all (n ∷ ns) = escape_segment n ∷ escape_all ns

scan-join : (n : Text) (ns : List Text) → scan false [] (join_colon (escape_all (n ∷ ns))) ≡ n ∷ ns
unfolding scan
scan-join n [] = ap (scan false []) (sym (append_nil (escape_segment n))) ∙ scan-escape n [] []
scan-join n (m ∷ ns) =
    scan-escape n [] (58 ∷ join_colon (escape_all (m ∷ ns))) ∙ ap (λ s. n ∷ s) (scan-join m ns)

-- A segment that is not empty and has no white space at its ends.
abbrev pub IsTrimmed : Text → Type 0
IsTrimmed s = (strip s ≡ s) × (is_empty s ≡ false)

strip_all-IsTrimmed : (ns : List Text) → All IsTrimmed ns → strip_all ns ≡ ns
strip_all-IsTrimmed [] h = refl
strip_all-IsTrimmed (n ∷ ns) ((e, f), h) = rw (e, strip_all-IsTrimmed ns h) refl

any_empty-IsTrimmed : (ns : List Text) → All IsTrimmed ns → any_empty ns ≡ false
any_empty-IsTrimmed [] h = refl
any_empty-IsTrimmed (n ∷ ns) ((e, f), h) = rw (f, any_empty-IsTrimmed ns h) refl

-- Names that are not empty and have no white space at their ends, whatever colons and backslashes they
-- hold, are escaped and joined to a path that is split into just these names.
pub split_path-join_colon :
    (n : Text) (ns : List Text)
    → All IsTrimmed (n ∷ ns)
    → split_path (join_colon (escape_all (n ∷ ns))) ≡ some (n ∷ ns)
unfolding split_path
split_path-join_colon n ns h =
    ap (λ ss. unless_empty (strip_all ss)) (scan-join n ns)
    ∙ ap unless_empty (strip_all-IsTrimmed (n ∷ ns) h)
    ∙ ap (λ b. if b then none else some (n ∷ ns)) (any_empty-IsTrimmed (n ∷ ns) h)

unescape_step :
    (c : ℕ) (rest : Text) → unescape_from false (escaped c ++ rest) ≡ c ∷ unescape_from false rest
unfolding unescape_from
unescape_step c rest = ground arith

-- A segment that was escaped is unescaped to itself.
pub unescape-escape_segment : (s : Text) → unescape_segment (escape_segment s) ≡ s
unfolding unescape_segment unescape_from escape_segment
unescape-escape_segment [] = refl
unescape-escape_segment (c ∷ cs) =
    ap unescape_segment (escape_step c cs)
    ∙ unescape_step c (escape_segment cs)
    ∙ ap (λ s. c ∷ s) (unescape-escape_segment cs)
