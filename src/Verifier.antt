-- ===== src/Verifier.antt =====
-- src/strict_verifier: the graded reward and the verdict on an episode.
pub mod Reward
pub mod Workloads
pub mod Workspaces
pub mod Checks
pub mod Replay
pub mod Grade
