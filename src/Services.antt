-- ===== src/Services.antt =====
-- tulip_api/services: what the HTTP interface does with the repositories.
pub mod Reconciling
pub mod Transactions
