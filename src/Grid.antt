-- ===== src/Grid.antt =====
-- `underling_grid` of underling/underling.c.
pub mod Defs
pub mod Create
pub mod Accounts
pub mod Bounds
pub mod Grants
pub mod Release
pub mod Decomposition
pub mod Returns
