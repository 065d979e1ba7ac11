-- ===== src/Cli/AccountPath.antt =====
-- tulip_cli/_account_path.py: paths of accounts and their segments. A text is the list of its code points;
-- the backslash is 92, the colon 58. The dict of accounts is a list in which an identifier is found.
pub mod RoundTrip
pub mod Walk
use tulip_accounting.Prelude.{
  ℕ, zero, suc, ◌+◌, Bool, true, false, Option, none, some, List, [], ◌∷◌, ◌++◌, ◌==◌, length,
  if◌then◌else◌,
}
use tulip_accounting.Account.{AccountType, is_space}
use tulip_accounting.Currency.{codes}
use tulip_accounting.Transactions.{Uuid}
use tulip_accounting.Storage.Tables.{find}
use tulip_accounting.Storage.Budget.Queries.{is_among}

abbrev pub Text : Type 0
Text = List ℕ

-- `str.replace` of one character
abbrev pub replace : ℕ → Text → Text → Text
replace c by [] = []
replace c by (d ∷ ds) = if d == c then by ++ replace c by ds else d ∷ replace c by ds

-- `escape_segment`
unfoldable pub escape_segment : Text → Text
escape_segment name = replace 58 (92 ∷ 58 ∷ []) (replace 92 (92 ∷ 92 ∷ []) name)

-- `unescape_segment`: the loop, after a backslash or not. One at the end stands for itself.
unfoldable pub unescape_from : Bool → Text → Text
unescape_from true [] = 92 ∷ []
unescape_from false [] = []
unescape_from true (c ∷ cs) = c ∷ unescape_from false cs
unescape_from false (c ∷ cs) = elim (c == 92) [
  | true ↦ unescape_from true cs
  | false ↦ c ∷ unescape_from false cs
]

unfoldable pub unescape_segment : Text → Text
unfolding unescape_from
unescape_segment segment = unescape_from false segment

-- The loop of `split_path`, with the segment that is being read.
unfoldable pub scan : Bool → Text → Text → List Text
scan true current [] = (current ++ (92 ∷ [])) ∷ []
scan false current [] = current ∷ []
scan true current (c ∷ cs) = scan false (current ++ (c ∷ [])) cs
scan false current (c ∷ cs) = elim (c == 92) [
  | true ↦ scan true current cs
  | false ↦ elim (c == 58) [
    | true ↦ current ∷ scan false [] cs
    | false ↦ scan false (current ++ (c ∷ [])) cs
  ]
]

abbrev pub reversed_onto : Text → Text → Text
reversed_onto [] acc = acc
reversed_onto (c ∷ cs) acc = reversed_onto cs (c ∷ acc)

-- `str.lstrip`, and `str.strip`
unfoldable pub strip_left : Text → Text
unfolding is_space
strip_left [] = []
strip_left (c ∷ cs) = if is_space c then strip_left cs else c ∷ cs

unfoldable pub strip : Text → Text
unfolding strip_left
strip s = reversed_onto (strip_left (reversed_onto (strip_left s) [])) []

abbrev pub strip_all : List Text → List Text
strip_all [] = []
strip_all (s ∷ ss) = strip s ∷ strip_all ss

abbrev pub is_empty : Text → Bool
is_empty [] = true
is_empty (c ∷ cs) = false

abbrev pub any_empty : List Text → Bool
any_empty [] = false
any_empty (s ∷ ss) = if is_empty s then true else any_empty ss

abbrev pub unless_empty : List Text → Option (List Text)
unless_empty segments = if any_empty segments then none else some segments

-- `split_path`
unfoldable pub split_path : Text → Option (List Text)
unfolding scan strip
split_path identifier = unless_empty (strip_all (scan false [] identifier))

-- An account as the API answers it
pub record AccountNode : Type 0 where
  pub id : Uuid
  pub name : Text
  pub kind : AccountType
  pub parent_account_id : Option Uuid

-- `by_id.get`
abbrev pub is_node : Uuid → AccountNode → Bool
is_node id a = a.id == id

abbrev pub get_node : List AccountNode → Uuid → Option AccountNode
get_node accounts id = find (is_node id) accounts

abbrev pub and_then : Text → Option (List Text) → Option (List Text)
and_then name none = none
and_then name (some names) = some (name ∷ names)

-- The loop that walks up the chain of parents, from the leaf, on fuel; without fuel there is no answer.
-- It stops at an account that it has seen, at the root, and at a parent that is missing.
unfoldable pub walk : List AccountNode → ℕ → List Uuid → AccountNode → Option (List Text)
unfolding escape_segment
walk accounts zero seen cur = none
walk accounts (suc fuel) seen cur =
    if is_among seen cur.id then some [] else (elim cur.parent_account_id [
      | none ↦ some (escape_segment cur.name ∷ [])
      | some parent_id ↦ elim (get_node accounts parent_id) [
        | none ↦ some (escape_segment cur.name ∷ (63 ∷ []) ∷ [])
        | some parent ↦
            and_then (escape_segment cur.name) (walk accounts fuel (cur.id ∷ seen) parent)
      ]
    ])

-- `_TYPE_DISPLAY`
unfoldable pub type_display : AccountType → Text
type_display AccountType.asset = codes "Asset"
type_display AccountType.liability = codes "Liability"
type_display AccountType.equity = codes "Equity"
type_display AccountType.income = codes "Income"
type_display AccountType.expense = codes "Expense"

-- `":".join`
abbrev pub join_colon : List Text → Text
join_colon [] = []
join_colon (s ∷ []) = s
join_colon (s ∷ t ∷ ss) = s ++ (58 ∷ join_colon (t ∷ ss))

abbrev pub names_reversed : List Text → List Text → List Text
names_reversed [] acc = acc
names_reversed (s ∷ ss) acc = names_reversed ss (s ∷ acc)

-- The names from the root, under the type
abbrev pub rendered : AccountType → Option (List Text) → Option Text
rendered kind none = none
rendered kind (some names) = some (join_colon (type_display kind ∷ names_reversed names []))

abbrev pub path_of : Text → List AccountNode → Option AccountNode → Option Text
path_of raw accounts none = some raw
path_of raw accounts (some account) =
    rendered account.kind (walk accounts (length accounts + 1) [] account)

-- `account_path`, on fuel for one account more than there are; `raw` is the text of the identifier
unfoldable pub account_path : (Uuid → Text) → List AccountNode → Uuid → Option Text
unfolding walk type_display
account_path raw accounts id = path_of (raw id) accounts (get_node accounts id)
