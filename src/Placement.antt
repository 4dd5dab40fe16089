-- ===== src/Placement.antt =====
-- packages/instrumenter/src/mutant-placers: how the mutants of a file are switched on and off.
pub mod Paths
pub mod Defs
pub mod Meaning
pub mod Wrapping
pub mod Switching
pub mod Counting
pub mod Locations
pub mod Traversal
pub mod Flow
pub mod Once
mod Samples
