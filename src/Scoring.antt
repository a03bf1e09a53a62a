-- ===== src/Scoring.antt =====
-- internal/scoring: task scores.
pub mod Types
pub mod Penalty
pub mod DetectType
pub mod Reachability
pub mod Base
pub mod Recalculate
