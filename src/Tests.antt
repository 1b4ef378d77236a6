-- ===== src/Tests.antt =====
-- Concrete runs, and the theorems at them.
mod Worlds
mod Inits
mod Grids
mod Transposes
mod Problems
mod Plans
mod Layouts
mod Transforms
mod Benchmarks
mod Programs
mod Sweeps
mod Fields
mod Processes
mod Exchanges
mod Domain
mod Lives
