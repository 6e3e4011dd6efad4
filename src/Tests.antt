-- ===== src/Tests.antt =====
-- The theorems at concrete inputs: a small catalog, and a conversation whose question has been asked.
pub mod Fixtures
pub mod Catalog
pub mod Turns
pub mod Artifacts
pub mod Stores
pub mod Modes
pub mod Conversations
pub mod Branches
