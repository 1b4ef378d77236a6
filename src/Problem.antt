-- ===== src/Problem.antt =====
-- `underling_problem` of underling/underling.c.
pub mod Defs
pub mod Create
pub mod Accounts
pub mod Query
pub mod Layout
pub mod Memory
pub mod Release
pub mod Success
pub mod Print
