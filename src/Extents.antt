-- ===== src/Extents.antt =====
-- `underling_extents`: the type of underling/underling.h and what underling/underling.c computes
-- of it.
pub mod Defs
pub mod Layout
pub mod Compare
