-- ===== src/Storage/Ledger/Invariant.antt =====
-- The ledger's invariant over sequences of writes of `TransactionRepository`.
use tulip_accounting.Prelude.{String, List}
use tulip_accounting.Transactions.{Uuid}
use tulip_accounting.Storage.Tables.{All-delete}
use tulip_accounting.Storage.Rows.{Db, Header, PostingRow, is_header}
use tulip_accounting.Storage.Ledger.{Repository, posting_rows}
use tulip_accounting.Storage.Ledger.Balance.{
  IsBooked, IsLedger, insert_header-IsLedger, insert_postings-IsLedger, update_status-IsLedger,
  edit-IsLedger, cleared-IsLedger,
}
use tulip_accounting.Storage.Ledger.Calls.{Call, perform_all}
use tulip_accounting.Storage.Ledger.Rules.{IsEdit, Rules}
use tulip_accounting.Storage.Ledger.Kept.{perform_all-keeps}

edited-IsBooked :
    (ps : List PostingRow) (f : Header → Header) (h : Header)
    → IsEdit f
    → IsBooked ps h
    → IsBooked ps (f h)
edited-IsBooked ps f h keeps booked i =
    rw (keeps.same_household h, keeps.same_id h) (booked (rw (keeps.same_status h) at i))

pub IsLedger-rules : (household_id : Uuid) → Rules household_id IsLedger
IsLedger-rules hh = record {
  inserts = λ h db own waits led. insert_header-IsLedger h db waits led;
  adds = λ tx_id ps db draft led. insert_postings-IsLedger (posting_rows hh tx_id ps) db led;
  posts = λ tx_id new db draft led. update_status-IsLedger hh tx_id new db led;
  edits_draft = λ tx_id f db draft keeps led.
      edit-IsLedger hh tx_id f db (λ h booked. edited-IsBooked db.postings f h keeps booked) led;
  edits = λ tx_id f db keeps dates led.
      edit-IsLedger hh tx_id f db (λ h booked. edited-IsBooked db.postings f h keeps booked) led;
  clears = λ tx_id db draft led. cleared-IsLedger hh tx_id db led;
  removes = λ tx_id db draft led.
      All-delete (is_header hh tx_id) db.headers (λ h booked miss. booked) led;
  unpromotes = λ tx_id db led. led;
}

-- In a ledger where the postings of every posted or reconciled transaction sum to zero in every
-- currency they still do after any sequence of writes of the repository, whichever of them raise.
pub perform_all-IsLedger :
    (encrypt : String → Uuid → Uuid → String → String) (repo : Repository) (cs : List Call)
    (db : Db)
    → IsLedger db
    → IsLedger (perform_all encrypt repo cs db)
perform_all-IsLedger encrypt repo cs db led =
    perform_all-keeps encrypt repo IsLedger (IsLedger-rules repo.household_id) cs db led
