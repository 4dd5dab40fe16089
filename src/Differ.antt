-- ===== src/Differ.antt =====
-- packages/core/src/mutants/incremental-differ.ts: what of a previous run's results holds for the
-- current files.
pub mod Positions
pub mod FileDiff
pub mod Moves
pub mod Shifts
pub mod Counts
pub mod Unchanged
pub mod Keys
pub mod Statistics
pub mod Closing
pub mod Report
pub mod Reuse
pub mod Decisions
pub mod Collect
pub mod Diff
pub mod Kept
pub mod Closed
mod Samples
pub mod Runs
