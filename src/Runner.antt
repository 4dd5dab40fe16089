-- ===== src/Runner.antt =====
-- packages/core/src/test-runner: the decorators around a test runner, and the results of runs of
-- packages/api/src/test-runner.
pub mod Results
pub mod Decorators
pub mod Verdicts
pub mod Environment
pub mod Retries
pub mod Shared
mod Samples
