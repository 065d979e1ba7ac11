-- ===== src/Ai.antt =====
-- tulip_ai: the gate before calls of language models.
pub mod Cost
pub mod RateLimit
