-- ===== src/Storage/Budget/Triggers.antt =====
-- migrations/_triggers.py: the balance triggers of the shadow ledger, and the writes that fire them.
-- Unlike the main ledger's they guard the status `posted` alone.
use tulip_accounting.Prelude.{Bool, not, ◌&&◌, ◌||◌, ◌==◌, List, [], ◌∷◌, ◌++◌, keep, all_of}
use tulip_accounting.Prelude.Results.{Error, Result, ok, raise_if, ◌>>◌}
use tulip_accounting.Transactions.{Uuid, tally, entry_is_zero}
use tulip_accounting.Allocation.Shadow.{ShadowTxStatus, is_shadow_posted}
use tulip_accounting.Storage.Tables.{update, exists}
use tulip_accounting.Storage.Budget.{
  Budget, ShadowHeader, ShadowRow, PoolRow, is_shadow, is_pool, is_leg_of, leg_amounts,
}

-- No group of the postings of a shadow transaction by currency has a sum other than 0.
unfoldable pub is_shadow_balanced_in : List ShadowRow → Uuid → Uuid → Bool
unfolding tally
is_shadow_balanced_in rows household_id tx_id =
    all_of entry_is_zero (tally (leg_amounts (keep (is_leg_of household_id tx_id) rows)) [])

-- `trg_shadow_transactions_balanced_on_post` on one row that is given a status: does it abort?
abbrev pub shadow_post_aborts : List ShadowRow → ShadowTxStatus → ShadowHeader → Bool
shadow_post_aborts rows new h =
    is_shadow_posted new
    && not (is_shadow_posted h.status)
    && not (is_shadow_balanced_in rows h.household_id h.id)

-- `UPDATE shadow_transactions SET status = new WHERE household_id = ... AND id = ...`
unfoldable pub update_shadow_status : Uuid → Uuid → ShadowTxStatus → Budget → Result Budget
unfolding is_shadow_balanced_in
update_shadow_status household_id id new b = do
  raise_if
      (exists (λ h. is_shadow household_id id h && shadow_post_aborts b.shadow_rows new h)
        b.shadow_headers)
      Error.trigger_abort
  ok (record b {
    shadow_headers =
        update (is_shadow household_id id) (λ h. record h { status = new }) b.shadow_headers;
  })

-- `trg_shadow_postings_balanced_on_insert` after a row was added: does it abort?
abbrev pub shadow_insert_aborts : List ShadowHeader → List ShadowRow → ShadowRow → Bool
shadow_insert_aborts headers rows new =
    exists
      (λ h. is_shadow new.household_id new.shadow_transaction_id h && is_shadow_posted h.status)
      headers
    && not (is_shadow_balanced_in rows new.household_id new.shadow_transaction_id)

-- What `shadow_postings` refuses of a new row: an identifier that a row has, which is the primary key, and a
-- pool that the household does not have, which is the foreign key `fk_shadow_postings_pool`. The header that
-- the row names was inserted before it.
abbrev pub is_refused : List PoolRow → List ShadowRow → ShadowRow → Bool
is_refused pools rows p =
    exists (λ r. r.id == p.id) rows || not (exists (is_pool p.household_id p.pool_id) pools)

-- `INSERT INTO shadow_postings`, row by row
unfoldable pub insert_shadow_rows : List ShadowRow → Budget → Result Budget
unfolding is_shadow_balanced_in
insert_shadow_rows [] b = ok b
insert_shadow_rows (p ∷ ps) b = do
  raise_if (is_refused b.pools b.shadow_rows p) Error.integrity_error
  raise_if (shadow_insert_aborts b.shadow_headers (b.shadow_rows ++ (p ∷ [])) p) Error.trigger_abort
  insert_shadow_rows ps (record b { shadow_rows = b.shadow_rows ++ (p ∷ []) })

-- `INSERT INTO shadow_transactions`
unfoldable pub insert_shadow_header : ShadowHeader → Budget → Result Budget
insert_shadow_header h b = do
  raise_if (exists (is_shadow h.household_id h.id) b.shadow_headers) Error.integrity_error
  ok (record b { shadow_headers = b.shadow_headers ++ (h ∷ []) })
