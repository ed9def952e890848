-- ===== src/Scoring.antt =====
-- Pure calculations of the event's results and limits (apps/api/internal/scoring).
pub mod Caps
pub mod Pairing
pub mod Ranking
