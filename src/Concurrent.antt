-- ===== src/Concurrent.antt =====
-- packages/core/src/concurrent: the pool of checkers and test runners and its tokens.
pub mod State
pub mod Defs
pub mod Counts
pub mod Places
pub mod Resources
pub mod Queue
pub mod Items
pub mod Progress
pub mod Provider
pub mod Tokens
pub mod Samples
