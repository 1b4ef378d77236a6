-- ===== src/Fftw.antt =====
-- `underling_fftw_plan` of underling/underling_fftw.c. An address counts in values of
-- `underling_real`, and an FFTW plan is a number that is 0 for NULL.
pub mod Defs
pub mod Complex
pub mod Half
pub mod Create
pub mod Accounts
pub mod Execute
pub mod Ready
pub mod Made
pub mod Adjust
pub mod Sizes
pub mod Release
pub mod Inverse
pub mod Print
