-- ===== src/Sandbox.antt =====
-- packages/core/src/sandbox and packages/core/src/fs/project-file.ts: the files under test.
pub mod Files
pub mod Filling
pub mod Restored
pub mod Exit
pub mod Same
pub mod Samples
