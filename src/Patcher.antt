-- ===== src/Patcher.antt =====
-- The application of patches, crates/cli/src/core/atomic_patcher.rs, in its parts.
pub mod Hunk
pub mod Content
pub mod Files
pub mod Rejection
pub mod Safety
pub mod Confinement
pub mod Sides
pub mod Splice
pub mod Sequence
pub mod Touched
mod Examples
