-- ===== src/Plan.antt =====
-- `underling_plan` of underling/underling.c.
pub mod Defs
pub mod Create
pub mod Accounts
pub mod Execute
pub mod Release
pub mod Returns
pub mod Requests
pub mod Success
pub mod Lives
pub mod Print
