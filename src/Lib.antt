-- ===== src/Lib.antt =====
-- Verification of the underling library, which transposes three dimensional data between
-- pencils over MPI and FFTW (underling/underling.c, underling/underling_fftw.c and
-- underling/error.c), and of its benchmark program (apps/underling_bench.c).
--
-- How the program is put together: a grid (`underling_grid`) owns three communicators of a
-- Cartesian process grid; a problem (`underling_problem`) of a grid fixes the layouts of the
-- local data when it is long in n0, n1 and n2, and owns the four transposes between them; a
-- plan (`underling_plan`) of a problem owns the FFTW plans of the transposes for given buffers,
-- and executes them. An FFTW plan (`underling_fftw_plan`) transforms one long direction of a
-- problem, with layouts that split the fields in two parts. Every operation reports its errors
-- through the handler of error.c. The benchmark reads its options into a record, makes a grid,
-- a problem, fields and plans, carries the fields through transforms and transposes in both
-- directions, and destroys all of it.
--
-- Which file models what:
--   Machine       the functions of libc, MPI and FFTW as calls that an environment answers, the
--                 library's global variables, and a monad for the runs of the C code
--   Error         underling/error.c and the macros of underling/error.h
--   Extents       `underling_extents`: comparison, strides
--   Grid          `underling_grid_create`, `underling_grid_destroy`, the two sizes
--   Transpose     the static functions for one transpose
--   Problem       `underling_problem_create`, `underling_problem_destroy`, and the queries
--   Plan          `underling_plan_create`, `underling_plan_destroy`, the four executions, and
--                 `underling_dump_transposes`
--   Exchange      the data of all processes: Exchange.Defs is what FFTW documents of its transposes,
--                 Exchange.Blocks what it documents of the shares, Exchange.Sends reads off a run
--                 what a process broadcasts, and Exchange.Shares states what MPI documents of a
--                 broadcast; the others are about the elements of a problem's pencils
--   Print         the print functions; those of problems and plans stand in Problem.Print,
--                 Plan.Print and Fftw.Print
--   Init          `underling_init`, `underling_cleanup`, `underling_debug_transpose`
--   FftwExtents   the layouts with five indices of underling/underling_fftw.c
--   Fftw          `underling_fftw_plan`: the creations, the inverse, the execution
--   Bench         the benchmark: Bench.Options and Bench.Text read its options (`parse_opt`,
--                 `trim`, the byte counts); Bench.Defs and Bench.Movement are the array `m` of
--                 `main`; Bench.Pass is its main loop, over the contents of the buffers; Bench.Main
--                 is `main` over the operations of the library; Bench.Field fills and checks a
--                 field; Bench.Argp is apps/mpi_argp.c
--   Tests         concrete runs, and the theorems at them
--
-- A C function is a function from a `World` to a `Run`: it returns a value and the next world,
-- or it stops (abort, failed assertion, an error handler of the user's that does not return,
-- overflow of `int`, access through NULL or outside an array, endless loop). A function that is
-- longer than a page is several definitions, each of which is called by the one before, in the
-- order of the statements. The answers of the calls are a parameter (`Env`), of which nothing
-- is assumed where a theorem does not say so. Every call is recorded in the trace, from which
-- the accounts of blocks, communicators and plans are read (Machine.Count).
--
-- What a transpose does to the data is not code of the library: `Exchanges` states what FFTW
-- documents of it, on contents that are functions of a process and an address. `Process` is
-- what is documented of the answers to one process: `Sharing` gives its shares of FFTW's
-- blocks, and `Receives` says that a broadcast along a communicator gives it what process 0 of
-- the communicator has sent. Process 0 is a `Head`, a process with a creation of a problem of
-- its own, and what it sends is read off the trace of that creation. `Member` is a process with
-- the problem that it has created; the theorems on the data relate several of them.
--
-- Machine integers: an `int` that may be negative is the type ℤ of Common.Int, and other values
-- are natural numbers. The product of the two sizes of the processor grid in
-- `underling_grid_create` and the products of `underling_problem_create` and of
-- `underling_global_memory_optimum` stop the run where they overflow an `int`; those of the
-- FFTW layouts are not bounded. Masks are 32 bits wide (`not32`). The movements of the
-- benchmark, which are negated by `^` and added, are words of 32 bits (`add32`, `neg32`). A
-- `double` is a type that is a parameter.
--
-- Fuel: only the loop of `adjust_for_fast_stride_in_long_direction` has fuel. Three rounds are
-- enough, since the three entries that it rotates come back after three: what they do not find,
-- no number of rounds finds, and a loop that does not end is a stop of its own (`endless`).
--
-- The build is the one with FFTW 3.3 beta 1 or later (`HAVE_FFTW33_BETA1_OR_LATER`).
--
-- Not modelled: the text of error messages beyond the reason, file and line of an error, of the
-- benchmark the banners, timings, wisdom files and its exit status, the C++ headers, the tests,
-- and the copied gnulib.
pub mod Common
pub mod Machine
pub mod Error
pub mod Exchange
pub mod Grid
pub mod Extents
pub mod Transpose
pub mod Problem
pub mod Print
pub mod Plan
pub mod FftwExtents
pub mod Fftw
pub mod Bench
pub mod Init
mod Tests
