-- ===== src/FftwExtents.antt =====
-- `underling_fftw_extents`: the type of underling/underling_fftw.h and what
-- underling/underling_fftw.c computes of it.
pub mod Defs
pub mod Rotate
pub mod Layout
