-- ===== src/Tests/Cli.antt =====
-- Paths of accounts.
use tulip_accounting.Prelude.{◌≡◌, refl, none, some, List, [], ◌∷◌}
use tulip_accounting.Account.{AccountType}
use tulip_accounting.Currency.{codes}
use tulip_accounting.Cli.AccountPath.{
  Text, AccountNode, strip, split_path, join_colon, account_path,
}
use tulip_accounting.Cli.AccountPath.Walk.{account_path_ends}
use tulip_accounting.Cli.AccountPath.RoundTrip.{escape_all, split_path-join_colon}

-- Account 1 is under 2, which is under 1; account 3 is under 9, which is missing.
abbrev chart : List AccountNode
chart =
    record { id = 1; name = codes "a:b"; kind = AccountType.asset; parent_account_id = some 2 }
    ∷ record { id = 2; name = codes "c"; kind = AccountType.asset; parent_account_id = some 1 }
    ∷ record { id = 3; name = codes "d"; kind = AccountType.income; parent_account_id = some 9 }
    ∷ []

paths :
    (account_path (λ id. codes "raw") chart 1 ≡ some (codes "Asset:c:a\\:b"))
    × (account_path (λ id. codes "raw") chart 3 ≡ some (codes "Income:?:d"))
    × (account_path (λ id. codes "raw") chart 4 ≡ some (codes "raw"))
unfolding account_path
paths = (refl, refl, refl)

account_path_ends_example : (path : Text) × (account_path (λ id. codes "raw") chart 1 ≡ some path)
account_path_ends_example = account_path_ends (λ id. codes "raw") chart 1

-- Without its name or with white space at an end a segment is not found again.
unread :
    (split_path (codes "Asset::Cash") ≡ none)
    × (split_path (codes "Asset: Cash") ≡ some (codes "Asset" ∷ codes "Cash" ∷ []))
unfolding split_path
unread = (refl, refl)

split_path-join_colon_example :
    split_path (join_colon (escape_all (codes "a:b" ∷ codes "c\\" ∷ [])))
    ≡ some (codes "a:b" ∷ codes "c\\" ∷ [])
unfolding strip
split_path-join_colon_example =
    split_path-join_colon (codes "a:b") (codes "c\\" ∷ []) ((refl, refl), ((refl, refl), tt))
