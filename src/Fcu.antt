-- ===== src/Fcu.antt =====
-- src/fcu.rs: engine_forkchoiceUpdated.
pub mod Status
pub mod Handlers
pub mod Waits
pub mod Stores
pub mod Serves
pub mod Relays
pub mod Keeps
pub mod Board
pub mod Survives
pub mod Tells
