-- ===== src/Planner.antt =====
-- packages/core/src/mutants/mutant-test-planner.ts and the steps around it that sort mutants by
-- what is to be done with them.
pub mod Defs
pub mod Plans
pub mod Samples
