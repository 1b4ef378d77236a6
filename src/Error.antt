-- ===== src/Error.antt =====
-- underling/error.c and the error macros of underling/error.h.
--
-- The handler is called with the reason and the error number; the file and the line, which the
-- macros take from the compiler, are left out.
pub mod Laws
pub mod Handlers
pub mod Returns
pub mod Ensures
pub mod Defs
unfoldable pub use Defs.*
