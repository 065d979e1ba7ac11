-- ===== src/Storage.antt =====
-- tulip_storage: the tables of the ledger, and the repositories over them. A session is a value of the
-- tables that each call passes on; an error rolls it back.
pub mod Tables
pub mod Rows
pub mod Triggers
pub mod Ledger
pub mod Queries
pub mod Reconciliations
pub mod Budget
