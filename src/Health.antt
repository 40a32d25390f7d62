-- ===== src/Health.antt =====
-- libs/observability: how the health of a source is judged.
pub mod Tracker
pub mod Assessor
pub mod Evaluator
mod Tests
