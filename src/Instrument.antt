-- ===== src/Instrument.antt =====
-- packages/instrumenter/src/transformers: the directives in comments, and the mutants that the
-- transformer collects.
pub mod Directives
pub mod Latest
pub mod Collector
pub mod Reasons
pub mod Ignorers
mod Samples
