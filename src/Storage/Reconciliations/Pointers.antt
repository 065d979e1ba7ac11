-- ===== src/Storage/Reconciliations/Pointers.antt =====
-- The pointers of statement lines to their matches, over every sequence of writes.
use tulip_accounting.Prelude.{
  ℕ, ◌+◌, ◌≡◌, ◌⊎◌, inl, inr, arith, true, false, Option, none, some, List, [], ◌∷◌, ◌++◌, All,
  Bool-cases,
}
use tulip_accounting.Transactions.{Uuid}
use tulip_accounting.Storage.Tables.{
  find, update, delete, exists, find-append, find-append_new, find-delete_kept, find-exists,
  find_sound, All-update, All-map,
}
use tulip_accounting.Storage.Rows.{Db, LineRow, MatchRow, is_line, is_match}
use tulip_accounting.Storage.Reconciliations.{refers_to, is_match_of, is_line_of, repoint}
use tulip_accounting.Storage.Reconciliations.Lines.{
  LineEdit, exclude, unexclude, mark_promoted, edit_line, ParsedRow, bulk_insert,
}

-- The match that a line points to is there, and is a match of the line.
abbrev pub IsLinked : List MatchRow → LineRow → Type 0
IsLinked matches l =
    (m : Uuid)
    → l.reconciliation_match_id ≡ some m
    → (r : MatchRow) × (find (is_match l.household_id m) matches ≡ some r)
      × (refers_to r.statement_line_id l.id ≡ true)

abbrev pub AreLinked : Db → Type 0
AreLinked db = All (IsLinked db.matches) db.lines

unlinked : (ms : List MatchRow) (l : LineRow) → l.reconciliation_match_id ≡ none → IsLinked ms l
unlinked ms l free m e = absurd (ground arith)

-- A new match does not unlink a line.
longer :
    (ms : List MatchRow) (m : MatchRow) (l : LineRow) → IsLinked ms l → IsLinked (ms ++ (m ∷ [])) l
longer ms m l old x e =
    let r = old x e in (r.0, find-append (is_match l.household_id x) ms (m ∷ []) r.0 r.1, r.2)

pub create_match-AreLinked :
    (m : MatchRow) (line_id : Option Uuid) (lines : List LineRow) (ms : List MatchRow)
    → m.statement_line_id ≡ line_id
    → exists (is_match m.household_id m.id) ms ≡ false
    → All (IsLinked ms) lines
    → All (IsLinked (ms ++ (m ∷ []))) (repoint m.household_id line_id (some m.id) lines)
create_match-AreLinked m none lines ms named new linked = All-map lines (longer ms m) linked
create_match-AreLinked m (some line_id) lines ms named new linked =
    All-update (is_line m.household_id line_id)
      (λ l. record l { reconciliation_match_id = some m.id }) lines
      (λ l old own x e.
        let same : m.id ≡ x = ground arith in
        let household : m.household_id ≡ l.household_id = ground arith in
        let line : line_id ≡ l.id = ground arith in
        (
          m,
          rw (← same, ← household)
              (find-append_new (is_match m.household_id m.id) ms m new (ground arith)),
          rw (named, line) (ground arith),
        ))
      (λ l old miss. longer ms m l old) linked

-- A line whose match is not the one that goes keeps it; else its match is the one that goes.
survives :
    (household_id match_id : Uuid) (m : MatchRow) (ms : List MatchRow) (l : LineRow) (x : Uuid)
    → find (is_match household_id match_id) ms ≡ some m
    → IsLinked ms l
    → l.reconciliation_match_id ≡ some x
    → ((r : MatchRow) × (find
            (is_match l.household_id x)
            (delete (is_match household_id match_id) ms)
          ≡ some r)
        × (refers_to r.statement_line_id l.id ≡ true))
      ⊎ ((l.household_id ≡ household_id) × (refers_to m.statement_line_id l.id ≡ true))
survives hh match_id m ms l x found old e =
    let (r, its, own) = old x e in
    let key = find_sound (is_match l.household_id x) ms r its in
    elim (Bool-cases (is_match hh match_id r)) [
      | inr other ↦ inl (
        r,
        find-delete_kept (is_match l.household_id x) (is_match hh match_id) ms r its other,
        own,
      )
      | inl gone ↦
          let household : l.household_id ≡ hh = ground arith in
          let match_ : x ≡ match_id = ground arith in
          let same : r ≡ m = cc (rw (household, match_) at its, found) in
          inr (household, rw same at own)
    ]

-- What the lines of a match that goes point to.
pub reject-AreLinked :
    (household_id match_id : Uuid) (m : MatchRow) (line_id : Option Uuid) (lines : List LineRow)
    (ms : List MatchRow)
    → m.statement_line_id ≡ line_id
    → find (is_match household_id match_id) ms ≡ some m
    → All (IsLinked ms) lines
    → All
        (IsLinked (delete (is_match household_id match_id) ms))
        (repoint household_id line_id none lines)
reject-AreLinked hh match_id m none lines ms named found linked =
    All-map lines
      (λ l old x e. elim (survives hh match_id m ms l x found old e) [
        | inl kept ↦ kept
        | inr (household, own) ↦ absurd (cc (rw named at own))
      ])
      linked
reject-AreLinked hh match_id m (some line_id) lines ms named found linked =
    All-update (is_line hh line_id) (λ l. record l { reconciliation_match_id = none }) lines
      (λ l old own x e. absurd (cc e))
      (λ l old miss x e. elim (survives hh match_id m ms l x found old e) [
        | inl kept ↦ kept
        | inr (household, own) ↦
            let line : refers_to (some line_id) l.id ≡ true = rw named at own in
            absurd (ground arith)
      ])
      linked

pub revert-AreLinked :
    (household_id id : Uuid) (db : Db)
    → AreLinked db
    → All (IsLinked (delete (is_match_of household_id id) db.matches)) (
        update
          (is_line_of household_id id db)
          (λ l. record l { reconciliation_match_id = none })
          db.lines)
revert-AreLinked hh id db linked =
    All-update (is_line_of hh id db) (λ l. record l { reconciliation_match_id = none }) db.lines
      (λ l old own x e. absurd (cc e))
      (λ l old miss x e.
        let (r, its, own) = old x e in
        let key = find_sound (is_match l.household_id x) db.matches r its in
        elim (Bool-cases (is_match_of hh id r)) [
          | inr other ↦ (
            r,
            find-delete_kept (is_match l.household_id x) (is_match_of hh id) db.matches r its other,
            own,
          )
          | inl gone ↦
              let household : l.household_id ≡ hh = ground arith in
              let named =
                find-exists (is_match l.household_id x) (is_match_of hh id)
                  (λ m. refers_to m.statement_line_id l.id) db.matches r its gone own in
              absurd (ground arith)
        ])
      linked

pub bulk_insert-IsLinked :
    (household_id batch_id : Uuid) (fresh : ℕ → Uuid) (k : ℕ) (rows : List ParsedRow)
    (ms : List MatchRow)
    → All (IsLinked ms) (bulk_insert household_id batch_id fresh k rows)
unfolding bulk_insert
bulk_insert-IsLinked hh batch_id fresh k [] ms = tt
bulk_insert-IsLinked hh batch_id fresh k (r ∷ rs) ms =
    (λ x e. absurd (cc e), bulk_insert-IsLinked hh batch_id fresh (k + 1) rs ms)

pub edit_line-IsLinked :
    (edit : LineEdit) (ms : List MatchRow) (l : LineRow)
    → IsLinked ms l
    → IsLinked ms (edit_line edit l)
edit_line-IsLinked exclude ms l old = old
edit_line-IsLinked unexclude ms l old = old
edit_line-IsLinked (mark_promoted tx_id) ms l old = old
