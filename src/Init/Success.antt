-- ===== src/Init/Success.antt =====
-- What an initialisation that succeeds has done.
use underling.Common.{◌≡◌, Bool, true, false, ℤ, Option, none, some, [], ◌∷◌, arith}
use underling.Machine.{M, World, Call, ok, pure, ◌>>=◌, when◌then◌else◌, fftw_mpi_init, stepping}
use underling.Machine.Spends.{and_then-ok}
use underling.Error.{Status, success, einval, esanity, error_code, error_val}
use underling.Init.{init_fftw, only_init, plan_with, choose_threads, init_threads, init}

-- The latest call.
abbrev pub latest : World → Option Call
latest w = elim w.trace [ [] ↦ none | e ∷ t ↦ some e.call ]

-- A run that succeeds has initialised FFTW MPI last.
record Ends (m : M Status) : Type 0 where
  run : (w w' : World) → m w ≡ ok success w' → latest w' ≡ some fftw_mpi_init

first : {A : Type 0} {k : A → M Status} (m : M A) → ((v : A) → Ends (k v)) → Ends (m >>= k)
unfolding ◌>>=◌
first {k} m q = record {
  run = λ w w' h. let (u, w1, h1, h2) = and_then-ok (m w) k success w' h in (q u).run w1 w' h2;
}

split : {m n : M Status} (t : Bool) → Ends m → Ends n → Ends (when t then m else n)
unfolding when◌then◌else◌
split true p q = p
split false p q = q

refused : Ends (pure esanity)
refused = record { run = λ w w' h. absurd (cc) }

malformed : Ends (pure einval)
malformed = record { run = λ w w' h. absurd (cc) }

init_fftw-Ends : Ends init_fftw
unfolding init_fftw only_init stepping
init_fftw-Ends = record { run = λ w w' h. ground arith }

plan_with-Ends : (n : ℤ) → Ends (plan_with n)
unfolding plan_with
plan_with-Ends n = first _ λ _. init_fftw-Ends

choose_threads-Ends : (n : ℤ) → Ends (choose_threads n)
unfolding choose_threads error_code error_val
choose_threads-Ends n =
    split _ (plan_with-Ends _) (
      first _ λ v. split _ (plan_with-Ends _) (split _ (first _ λ _. malformed) (plan_with-Ends _)))

init_threads-Ends : (threads : Bool) (n : ℤ) → Ends (init_threads threads n)
unfolding init_threads error_code error_val
init_threads-Ends threads n =
    split _ init_fftw-Ends (first _ λ t. split _ (first _ λ _. refused) (choose_threads-Ends n))

init-Ends : (threads : Bool) (n : ℤ) → Ends (init threads n)
unfolding init
init-Ends threads n = first _ λ q. split _ (first _ λ _. refused) (
    split _ (init_threads-Ends threads n)
      (first _ λ i. split _ (first _ λ _. refused) (init_threads-Ends threads n)))

-- The latest call of an initialisation that succeeds is the one that initialises FFTW MPI.
pub init-success :
    (threads : Bool) (n : ℤ) (w w' : World)
    → init threads n w ≡ ok success w'
    → latest w' ≡ some fftw_mpi_init
init-success threads n w w' = (init-Ends threads n).run w w'
