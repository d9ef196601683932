-- ===== src/Substrate.antt =====
-- event_service_substrate: persistence, authenticated recovery and the fake clock.
pub mod Errors
pub mod Tables
pub mod Canonical
pub mod Clock
pub mod Authority
pub mod Store
pub mod Recovery
