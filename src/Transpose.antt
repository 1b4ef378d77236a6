-- ===== src/Transpose.antt =====
-- `underling_transpose` of underling/underling.c, which the problem and the plan use.
pub mod Defs
pub mod Accounts
pub mod Inverse
pub mod Success
pub mod Release
