-- ===== src/Tests/Inits.antt =====
-- The library started with threads.
use underling.Common.{◌≡◌, refl, true, pos}
use underling.Machine.{World, ok}
use underling.Error.{success, reporting}
use underling.Init.{only_init, init_fftw, plan_with, choose_threads, init_threads, init}
use underling.Tests.Worlds.{world, world_of}

abbrev started : World
started = world_of (init true (pos 0) world)

starts : init true (pos 0) world ≡ ok success started
unfolding only_init init_fftw plan_with choose_threads init_threads init reporting
starts = refl
