-- ===== src/Agent.antt =====
-- src/agent_surface: the evaluated agent's interface to the service.
pub mod Runtime
pub mod Methods
pub mod Intents
pub mod Flow
pub mod Engine
pub mod Workloads
pub mod Probes
pub mod Runs
pub mod Session
pub mod Tools
pub mod Trace
pub mod Inspect
pub mod Fixture
pub mod Gateway
