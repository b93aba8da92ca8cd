-- ===== src/Tests.antt =====
-- Concrete third-party code, runs of the program on it, and the theorems at concrete inputs.
pub mod SampleLru
pub mod Sample
pub mod Runs
pub mod Serving
pub mod Parts
pub mod Whole
pub mod Boards
