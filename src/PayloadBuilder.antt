-- ===== src/PayloadBuilder.antt =====
-- src/payload_builder.rs: dummy payloads for the consensus clients.
pub mod Bytes
pub mod Build
pub mod Methods
pub mod Laws
pub mod Shape
pub mod Registers
pub mod Panics
