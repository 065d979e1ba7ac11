-- ===== src/Cli/AccountPath/Walk.antt =====
-- The walk of `account_path` up the chain of parents, and its fuel.
use tulip_accounting.Prelude.{
  ℕ, zero, suc, ◌+◌, ◌≤◌, ◌≡◌, ap, ◌∙◌, inl, inr, refl, arith, Bool, true, false, some, List, [],
  ◌∷◌, ◌==◌, length, if◌then◌else◌, Bool-cases, Option-cases,
}
use tulip_accounting.Transactions.{Uuid}
use tulip_accounting.Storage.Tables.{find, exists, find_sound}
use tulip_accounting.Storage.Budget.Queries.{is_among}
use tulip_accounting.Cli.AccountPath.{
  Text, AccountNode, is_node, get_node, escape_segment, walk, type_display, join_colon,
  names_reversed, rendered, path_of, account_path,
}

-- How many accounts have not been seen.
abbrev unseen : List Uuid → List AccountNode → ℕ
unseen seen [] = 0
unseen seen (a ∷ rest) = if is_among seen a.id then unseen seen rest else unseen seen rest + 1

unseen-grow :
    (seen : List Uuid) (id : Uuid) (rest : List AccountNode)
    → unseen (id ∷ seen) rest ≤ unseen seen rest
unseen-grow seen id [] = omega arith
unseen-grow seen id (a ∷ rest) = let smaller = unseen-grow seen id rest in ground arith

-- An account that is seen now and was not before counts no more.
unseen-shrink :
    (seen : List Uuid) (id : Uuid) (rest : List AccountNode)
    → exists (is_node id) rest ≡ true
    → is_among seen id ≡ false
    → unseen (id ∷ seen) rest + 1 ≤ unseen seen rest
unseen-shrink seen id [] e new = absurd (cc)
unseen-shrink seen id (a ∷ rest) e new = elim (Bool-cases (a.id == id)) [
  | inl own ↦
      let same : a.id ≡ id = ground arith in let smaller = unseen-grow seen id rest in ground arith
  | inr other ↦ let smaller = unseen-shrink seen id rest (ground arith) new in ground arith
]

unseen-all : (rest : List AccountNode) → unseen [] rest ≡ length rest
unseen-all [] = refl
unseen-all (a ∷ rest) = let e = unseen-all rest in omega arith

found-exists :
    (p : AccountNode → Bool) (rest : List AccountNode) (a : AccountNode)
    → find p rest ≡ some a
    → exists p rest ≡ true
found-exists p [] a e = absurd (cc)
found-exists p (b ∷ rest) a e = elim (Bool-cases (p b)) [
  | inl hit ↦ rw hit refl
  | inr miss ↦ rw miss (found-exists p rest a (rw miss at e))
]

found_id :
    (id : Uuid) (rest : List AccountNode) (a : AccountNode)
    → get_node rest id ≡ some a
    → exists (is_node a.id) rest ≡ true
found_id id rest a e =
    let own = find_sound (is_node id) rest a e in
    let same : a.id ≡ id = ground arith in rw same (found-exists (is_node id) rest a e)

-- With fuel for one account more than are unseen, the walk ends.
walk_ends :
    (accounts : List AccountNode) (fuel : ℕ) (seen : List Uuid) (cur : AccountNode)
    → exists (is_node cur.id) accounts ≡ true
    → unseen seen accounts + 1 ≤ fuel
    → (names : List Text) × (walk accounts fuel seen cur ≡ some names)
unfolding walk
walk_ends accounts zero seen cur there enough = absurd (omega arith)
walk_ends accounts (suc fuel) seen cur there enough = elim (Bool-cases (is_among seen cur.id)) [
  | inl again ↦ rw again ([], refl)
  | inr new ↦ rw new (elim (Option-cases cur.parent_account_id) [
    | inl root ↦ rw root (escape_segment cur.name ∷ [], refl)
    | inr (parent_id, below) ↦ rw below (elim (Option-cases (get_node accounts parent_id)) [
      | inl missing ↦ rw missing (escape_segment cur.name ∷ (63 ∷ []) ∷ [], refl)
      | inr (parent, found) ↦
          let less = unseen-shrink seen cur.id accounts there new in
          let (names, more) =
            walk_ends accounts fuel (cur.id ∷ seen) parent
              (found_id parent_id accounts parent found) (omega arith) in
          rw (found, more) (escape_segment cur.name ∷ names, refl)
    ])
  ])
]

-- For every list of accounts, cyclic chains of parents and missing parents included, and every
-- identifier the path is found: the walk never needs more than one step for each account and one.
pub account_path_ends :
    (raw : Uuid → Text) (accounts : List AccountNode) (id : Uuid)
    → (path : Text) × (account_path raw accounts id ≡ some path)
unfolding account_path
account_path_ends raw accounts id = elim (Option-cases (get_node accounts id)) [
  | inl absent ↦ (raw id, ap (path_of (raw id) accounts) absent)
  | inr (account, found) ↦
      let (names, e) =
        walk_ends accounts (length accounts + 1) [] account (found_id id accounts account found)
          (let n = unseen-all accounts in omega arith) in
      (
        join_colon (type_display account.kind ∷ names_reversed names []),
        ap (path_of (raw id) accounts) found ∙ ap (rendered account.kind) e,
      )
]
