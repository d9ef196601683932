-- ===== src/Ground.antt =====
-- src/training_ground: the episode core.
pub mod Transcript
pub mod Limits
pub mod Actions
pub mod Client
pub mod Episode
pub mod Manifests
pub mod Loader
