-- ===== src/Examples.antt =====
-- Concrete instances of the parameters, and the theorems at concrete inputs.
pub mod Codec
pub mod Rows
pub mod Documents
pub mod Passing
pub mod Clashes
pub mod Seeds
pub mod Payloads
pub mod Instances
pub mod Recoveries
pub mod Transcripts
pub mod Rewards
pub mod Deliveries
pub mod Sessions
pub mod Gradings
pub mod Episodes
pub mod Capabilities
pub mod Inspections
pub mod Workloads
pub mod Serving
pub mod Running
pub mod Fixtures
pub mod Wires
pub mod Evaluations
