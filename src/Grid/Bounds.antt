-- ===== src/Grid/Bounds.antt =====
-- What a grid that is returned satisfies.
use underling.Common.{
  ℕ, ◌*◌, ◌≤◌, ◌≡◌, refl, ℤ, pos, nonneg, String, Option, none, some, ◌∷◌, arith,
}
use underling.Machine.{World, ok, malloc, comm_size, event}
use underling.Machine.Yields.{halts, Yields, returns, bind, cases}
use underling.Machine.At.{At, anywhere, step, fork, screened, weaken}
use underling.Error.{Status, error_null, error_val, mpichkn}
use underling.Grid.Defs.{Grid}
use underling.Grid.Create.{
  check_arguments, check_decomposition, fail, fail_mpi, name_comms, split_p_b, split_p_a,
  make_topology, decompose, initial, create,
}

-- The sizes are those of another grid, where a grid is returned.
abbrev SameSizes : Grid → Option Grid → Type 0
SameSizes g none = Unit
SameSizes g (some h) =
    (h.n0 ≡ g.n0) × (h.n1 ≡ g.n1) × (h.n2 ≡ g.n2) × (h.p_a ≡ g.p_a) × (h.p_b ≡ g.p_b)

fail_mpi-SameSizes : (g h : Grid) (s : ℕ) → Yields (fail_mpi g s) (SameSizes h)
unfolding fail_mpi mpichkn
fail_mpi-SameSizes g h s = bind _ (λ _. bind _ (λ _. returns none tt))

make_topology-SameSizes : (g : Grid) (c : ℕ) → Yields (make_topology g c) (SameSizes g)
unfolding make_topology split_p_a split_p_b name_comms
make_topology-SameSizes g c = bind _ λ s.
    cases (λ _. bad _ s.status)
      λ _. bind _ λ s.
        cases (λ _. bad _ s.status)
          λ _. bind _ λ s.
            cases (λ _. bad _ s.status)
              λ _. bind _ λ s.
                cases (λ _. bad _ s.status)
                  λ _. bind _ λ s.
                    cases (λ _. bad _ s.status)
                      λ _. bind _ λ _. bind _ λ _. bind _ λ _. bind _ λ _. bind _ λ s.
                        cases (λ _. bad _ s.status)
                          λ _. bind _ λ s.
                            cases (λ _. bad _ s.status)
                              λ _. bind _ λ s.
                                cases (λ _. bad _ s.status)
                                  λ _. returns _ (refl, refl, refl, refl, refl)
  where
    bad : (h : Grid) (s : ℕ) → Yields (fail_mpi h s) (SameSizes g)
    bad h s = fail_mpi-SameSizes h g s

-- The sizes of the processor grid divide the processes and fit the domain as far as it is checked.
abbrev Fits : ℕ → Grid → Type 0
Fits nproc g = (g.p_a * g.p_b ≡ nproc) × (g.p_b ≤ g.n0) × (g.p_a ≤ g.n1) × (g.p_b ≤ g.n1)

check_decomposition-Fits :
    (g : Grid) (nproc : ℕ) → check_decomposition g nproc ≡ none → Fits nproc g
unfolding check_decomposition
check_decomposition-Fits g nproc h = ground arith

check_arguments-pos :
    (c : ℕ) (n0 n1 n2 p_a p_b : ℤ)
    → check_arguments c n0 n1 n2 p_a p_b ≡ none
    → (pos (nonneg n0) ≡ n0)
      × (pos (nonneg n1) ≡ n1)
      × (pos (nonneg n2) ≡ n2)
      × (1 ≤ nonneg n0)
      × (1 ≤ nonneg n1)
      × (1 ≤ nonneg n2)
unfolding check_arguments
check_arguments-pos c n0 n1 n2 p_a p_b h = ground arith

-- How many processes the communicator has: what MPI_Comm_size answers, right after the allocation.
abbrev pub processes : World → ℕ → ℕ
processes w c =
    let call = malloc "struct underling_grid_s" in
    let e = event call (w.env.status w.trace call) (w.env.out w.trace call 0) in
    w.env.out (e ∷ w.trace) (comm_size c) 0

-- What is known of the result of the part behind the allocation, with the processes counted.
abbrev Decomposed : ℕ → Grid → Option Grid → Type 0
Decomposed nproc g none = Unit
Decomposed nproc g (some h) = (h.n0 ≡ g.n0) × (h.n1 ≡ g.n1) × (h.n2 ≡ g.n2) × Fits nproc h

fail-Decomposed :
    (nproc : ℕ) (g h : Grid) (reason : String) (e : Status)
    → Yields (fail g reason e) (Decomposed nproc h)
unfolding fail error_null error_val
fail-Decomposed nproc g h reason e = bind _ (λ _. bind _ (λ _. returns none tt))

fail_mpi-Decomposed : (nproc : ℕ) (g h : Grid) (s : ℕ) → Yields (fail_mpi g s) (Decomposed nproc h)
unfolding fail_mpi mpichkn
fail_mpi-Decomposed nproc g h s = bind _ (λ _. bind _ (λ _. returns none tt))

SameSizes-Decomposed :
    (nproc : ℕ) (g h : Grid) (o : Option Grid)
    → Fits nproc h
    → (h.n0 ≡ g.n0) × (h.n1 ≡ g.n1) × (h.n2 ≡ g.n2)
    → SameSizes h o
    → Decomposed nproc g o
SameSizes-Decomposed nproc g h none f e s = tt
SameSizes-Decomposed nproc g h (some k) f e s = ground arith

topology-Decomposed :
    (nproc : ℕ) (g h : Grid) (c : ℕ)
    → check_decomposition h nproc ≡ none
    → (h.n0 ≡ g.n0) × (h.n1 ≡ g.n1) × (h.n2 ≡ g.n2)
    → Yields (make_topology h c) (Decomposed nproc g)
topology-Decomposed nproc g h c e same =
    weaken (make_topology-SameSizes h c)
      (λ o. SameSizes-Decomposed nproc g h o (check_decomposition-Fits h nproc e) same)

decompose-Decomposed :
    (g : Grid) (c : ℕ) (w : World)
    → At w (decompose g c) (Decomposed (w.env.out w.trace (comm_size c) 0) g)
unfolding decompose
decompose-Decomposed g c w = step _ _ (
    fork (λ _. anywhere (fail_mpi-Decomposed _ g g _))
      λ _. step _ _ (
        fork (λ _. anywhere (fail_mpi-Decomposed _ g g _))
          λ _.
            fork (λ _. anywhere (halts _))
              λ _.
                screened (λ reason. anywhere (fail-Decomposed _ _ g reason _))
                  λ e. anywhere (topology-Decomposed _ g _ c e (refl, refl, refl))))

abbrev Created : ℕ → (n0 n1 n2 : ℤ) → Option Grid → Type 0
Created nproc n0 n1 n2 none = Unit
Created nproc n0 n1 n2 (some g) =
    (pos g.n0 ≡ n0)
    × (pos g.n1 ≡ n1)
    × (pos g.n2 ≡ n2)
    × (1 ≤ g.n0)
    × (1 ≤ g.n1)
    × (1 ≤ g.n2)
    × Fits nproc g

Decomposed-Created :
    (nproc c p a b : ℕ) (n0 n1 n2 p_a p_b : ℤ) (o : Option Grid)
    → check_arguments c n0 n1 n2 p_a p_b ≡ none
    → Decomposed nproc (initial p (nonneg n0) (nonneg n1) (nonneg n2) a b) o
    → Created nproc n0 n1 n2 o
unfolding initial
Decomposed-Created nproc c p a b n0 n1 n2 p_a p_b none e d = tt
Decomposed-Created nproc c p a b n0 n1 n2 p_a p_b (some g) e d =
    let h = check_arguments-pos c n0 n1 n2 p_a p_b e in ground arith

create-Created :
    (c : ℕ) (n0 n1 n2 p_a p_b : ℤ) (w : World)
    → At w (create c n0 n1 n2 p_a p_b) (Created (processes w c) n0 n1 n2)
unfolding create error_null error_val
create-Created c n0 n1 n2 p_a p_b w =
    screened (λ reason. anywhere (bind _ (λ _. returns none tt)))
      λ e. step _ _ (
        fork (λ _. anywhere (bind _ (λ _. returns none tt)))
          λ _. record {
            run = λ w' v h.
                Decomposed-Created _ c _ _ _ n0 n1 n2 p_a p_b v e
                  ((decompose-Decomposed _ c _).run w' v h);
          })

-- A grid that is returned has the sizes asked for, all positive; its processor grid has as many
-- places as the communicator has processes, and pB fits n0 and n1, and pA fits n1.
pub create-Fits :
    (c : ℕ) (n0 n1 n2 p_a p_b : ℤ) (w w' : World) (g : Grid)
    → create c n0 n1 n2 p_a p_b w ≡ ok (some g) w'
    → (pos g.n0 ≡ n0)
      × (pos g.n1 ≡ n1)
      × (pos g.n2 ≡ n2)
      × (1 ≤ g.n0)
      × (1 ≤ g.n1)
      × (1 ≤ g.n2)
      × (g.p_a * g.p_b ≡ processes w c)
      × (g.p_b ≤ g.n0)
      × (g.p_a ≤ g.n1)
      × (g.p_b ≤ g.n1)
create-Fits c n0 n1 n2 p_a p_b w w' g h =
    let r = (create-Created c n0 n1 n2 p_a p_b w).run w' (some g) h in ground arith
