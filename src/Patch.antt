-- ===== src/Patch.antt =====
-- The parser of unified diffs, crates/cli/src/core/patch_parser.rs, in its parts.
pub mod Types
pub mod Hunk
pub mod File
pub mod Diff
pub mod Termination
pub mod Render
pub mod Headers
pub mod Sections
mod Examples
