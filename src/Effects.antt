-- ===== src/Effects.antt =====
-- What the requests of src/main.rs do to the shared caches, what they ask of the engine, and the
-- form of their answers.
pub mod Contents
pub mod Answers
pub mod Decodes
pub mod Ids
pub mod Kinds
pub mod Shared
pub mod Client
pub mod Builder
pub mod Sizes
pub mod Controller
pub mod Dispatch
