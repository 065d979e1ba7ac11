-- ===== src/Reconciliation.antt =====
-- tulip_core/reconciliation: statement lines, match confidence, the matcher and the registry of
-- categorizers.
pub mod Score
pub mod Confidence
pub mod StatementLine
pub mod Matcher
pub mod Categorizer
