-- ===== src/Provenance.antt =====
-- Where the cached answers come from: the invariant that every entry of every cache was said by
-- the execution engine, and that each handler keeps it among any others (src/multiplexer.rs,
-- src/fcu.rs, src/new_payload.rs, src/payload_builder.rs).
pub mod Invariant
pub mod Fcu
pub mod FcuHandlers
pub mod Builder
pub mod NewPayload
pub mod Answers
pub mod Controller
pub mod Responses
pub mod Dispatch
