-- ===== src/Storage/Ledger/Edits.antt =====
-- repositories/transaction.py: `update_pending` and `rectify_posted`.
use Prim.Native.String.{slice, len, ◌++◌ as ◌<>◌}
use text.Mathlib.Text.{starts_with}
use tulip_accounting.Prelude.{not, String, Option, none, some, List, if◌then◌else◌}
use tulip_accounting.Prelude.Results.{Error, Result, ok, raise_if, ◌>>◌, ◌>>=◌}
use tulip_accounting.Transactions.{Uuid, Date, Posting, in_ledger}
use tulip_accounting.Storage.Tables.{update, delete}
use tulip_accounting.Storage.Rows.{Db, Header, is_header, is_posting_of}
use tulip_accounting.Storage.Triggers.{insert_postings}
use tulip_accounting.Storage.Ledger.{
  Repository, Patch, unset, value, get, get_or_raise, posting_rows, is_pending, encrypt_notes,
}

-- What a patch leaves in a column.
abbrev pub patched {ℓ} : {A : Type ℓ} → Patch A → A → A
patched unset old = old
patched (value new) old = new

-- The prefix of the description that the void route gives a reversal.
abbrev pub reversal_prefix : String → String
reversal_prefix old_description = "Reversal of " <> old_description <> ": "

-- The rewritten description, if the prefix still matches.
unfoldable pub redacted : String → String → Option String
redacted old_description description =
    if starts_with description (reversal_prefix old_description)
    then some (
        "Reversal of [redacted]: "
        <> slice description (len (reversal_prefix old_description)) (len description))
    else none

module _ (encrypt : String → Uuid → Uuid → String → String) where
  -- The new value of the encrypted column.
  unfoldable pub patch_notes :
      Repository → Uuid → Patch (Option String) → Result (Patch (Option String))
  unfolding encrypt_notes
  patch_notes repo tx_id unset = ok unset
  patch_notes repo tx_id (value notes) = do
    blob ← encrypt_notes encrypt repo tx_id notes
    ok (value blob)

  -- `update_pending`
  unfoldable pub update_pending :
      Repository
      → Uuid
      → Date
      → String
      → Option String
      → List Posting
      → Patch (Option String)
      → Db
      → Result (Header × Db)
  unfolding patch_notes insert_postings
  update_pending repo tx_id date description reference postings notes db = do
    existing ← get_or_raise repo tx_id db
    raise_if (not (is_pending existing.status)) Error.not_editable
    blob ← patch_notes repo tx_id notes
    let edited = λ (h : Header). record h {
      date = date;
      description = description;
      reference = reference;
      notes_encrypted = patched blob h.notes_encrypted;
    }
    after ← insert_postings (posting_rows repo.household_id tx_id postings) (record db {
      headers = update (is_header repo.household_id tx_id) edited db.headers;
      postings = delete (is_posting_of repo.household_id tx_id) db.postings;
    })
    refreshed ← get_or_raise repo tx_id after
    ok (refreshed, after)

  -- The step of `rectify_posted` at the paired reversal: its identifier if it was rewritten.
  unfoldable pub rectify_reversal :
      Repository → String → Patch String → Option Uuid → Db → Option Uuid × Db
  unfolding redacted
  rectify_reversal repo old_description unset reversal_id db = (none, db)
  rectify_reversal repo old_description (value new) none db = (none, db)
  rectify_reversal repo old_description (value new) (some reversal_id) db =
      elim (get repo reversal_id db) [
        | none ↦ (none, db)
        | some reversal ↦ elim (redacted old_description reversal.description) [
          | none ↦ (none, db)
          | some text ↦ (
            some reversal_id,
            record db {
              headers =
                  update (is_header repo.household_id reversal_id)
                    (λ h. record h { description = text }) db.headers;
            },
          )
        ]
      ]

  -- `rectify_posted`. The update is left out where no field is given; it changes nothing then.
  unfoldable pub rectify_posted :
      Repository
      → Uuid
      → Patch String
      → Patch (Option String)
      → Patch (Option String)
      → Db
      → Result (Header × Option Uuid × Db)
  unfolding patch_notes rectify_reversal
  rectify_posted repo tx_id description reference notes db = do
    existing ← get_or_raise repo tx_id db
    raise_if (not (in_ledger existing.status)) Error.not_rectifiable
    blob ← patch_notes repo tx_id notes
    let edited = λ (h : Header). record h {
      description = patched description h.description;
      reference = patched reference h.reference;
      notes_encrypted = patched blob h.notes_encrypted;
    }
    let rewritten =
        rectify_reversal repo existing.description description existing.voided_by_transaction_id
          (record db { headers = update (is_header repo.household_id tx_id) edited db.headers })
    refreshed ← get_or_raise repo tx_id rewritten.1
    ok (refreshed, rewritten.0, rewritten.1)
