-- ===== src/Levels.antt =====
-- packages/instrumenter/src/mutation-level and the part of
-- packages/instrumenter/src/transformers/babel-transformer.ts that turns the options
-- `includedMutations` and `excludedMutations` into the level of a run.
pub mod Defs
pub mod Update
pub mod Changes
pub mod Sequence
pub mod Selected
pub mod Membership
pub mod Total
pub mod Specs
mod Samples
