-- ===== src/Policy.antt =====
-- The policy engine of crates/cli/src/core/policy.rs, in its parts.
pub mod Types
pub mod Checks
pub mod Levels
pub mod Engine
pub mod Sandbox
pub mod Spec
pub mod Files
pub mod Decisions
pub mod Safety
pub mod Symlinks
pub mod Compare
pub mod Roots
mod Examples
