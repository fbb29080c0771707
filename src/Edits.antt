-- ===== src/Edits.antt =====
-- Structured edits of language models, crates/context-engine/src/diff/mod.rs: read, shown, accepted
-- and applied hunk by hunk.
pub mod Types
pub mod Apply
pub mod Order
pub mod Ranges
pub mod Place
pub mod Filled
mod Examples
