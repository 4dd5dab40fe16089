-- ===== src/Checker.antt =====
-- packages/typescript-checker/src: which mutants are type-checked together, and which of them an error is put
-- down to.
pub mod Graph
pub mod Groups
pub mod Partition
pub mod Closure
pub mod References
pub mod Related
pub mod Check
pub mod Files
pub mod Rewritten
pub mod Restored
pub mod Watched
pub mod Grouping
pub mod Imports
pub mod Suspects
pub mod Blame
pub mod Alone
pub mod Judgement
pub mod Verdicts
mod Samples
mod Checks
