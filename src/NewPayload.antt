-- ===== src/NewPayload.antt =====
-- src/new_payload.rs: engine_newPayload.
pub mod Decode
pub mod Handlers
pub mod Total
pub mod Recent
pub mod Waits
pub mod Relays
