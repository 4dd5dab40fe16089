-- ===== src/Mutators.antt =====
-- packages/instrumenter/src/mutators: the sixteen node mutators, their tables of operators, and
-- the list of all of them. A generator's yields are the list of what it yields.
pub mod Defs
pub mod Exchange
pub mod Literals
pub mod Calls
pub mod Statements
pub mod All
pub mod Own
