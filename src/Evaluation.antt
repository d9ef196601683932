-- ===== src/Evaluation.antt =====
-- src/evaluation_service: the loop that lets a model act in an episode.
pub mod Cycle
pub mod Runner
