-- ===== src/Diagnostic.antt =====
-- crates/reprocut-core/src/diagnostic.rs: the lines of the output that tell one failure from others.
-- `Texts` has the texts and what they are used with, `Normalize` the normalisation of a diagnostic,
-- `Select` the choice of the anchors.
pub mod Texts
pub mod Constants
pub mod Normalize
pub mod Slices
pub mod InBounds
pub mod Lines
pub mod Select
pub mod Stable
pub mod Kept
pub mod Present
pub mod Distinct
pub mod Anchors
pub mod Sample
mod Tests
