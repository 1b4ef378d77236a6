-- ===== src/Bench.antt =====
-- The benchmark program: apps/underling_bench.c and apps/mpi_argp.c.
pub mod Defs
pub mod Movement
pub mod Pass
pub mod Single
pub mod Loops
pub mod Places
pub mod Several
pub mod RoundTrip
pub mod Text
pub mod Options
pub mod Buffers
pub mod Main
pub mod Field
pub mod Argp
