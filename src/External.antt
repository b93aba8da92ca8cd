-- ===== src/External.antt =====
-- The code that the program calls and that is not in the repository: the crates `lru`,
-- `serde_json`, `jwt`, `hmac`, `hex`, and Lighthouse's `execution_layer` and `eth2`.
pub mod Lru
pub mod Primitives
pub mod Lighthouse
pub mod Uint256
pub mod Jwt
pub mod Environment
