-- ===== src/Coverage.antt =====
-- packages/core/src/mutants/test-coverage.ts: which tests cover which mutants, and how often a
-- mutant is reached.
pub mod Defs
pub mod Laws
pub mod Samples
