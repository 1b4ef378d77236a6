-- ===== src/Print.antt =====
-- The functions that print an object for debugging.
pub mod Objects
pub mod Accounts
unfoldable pub use Objects.*
