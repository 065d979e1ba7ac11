-- ===== src/Tests.antt =====
-- Evaluations of the modelled code on small inputs, and the theorems applied to them.
pub mod Data
mod Money
mod Insights
mod Ledger
mod Refill
mod Shadow
mod Matching
mod Storage
mod Reconciling
mod Runner
mod Ai
mod Budget
mod Requests
mod Cli
