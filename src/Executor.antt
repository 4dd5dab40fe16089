-- ===== src/Executor.antt =====
-- packages/core/src/process/4-mutation-test-executor.ts: from the plans to the results.
pub mod Report
pub mod Execute
pub mod Facade
pub mod Answers
pub mod Results
pub mod Order
pub mod Reports
pub mod Collected
mod Samples
