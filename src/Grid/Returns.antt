-- ===== src/Grid/Returns.antt =====
-- The creation of a grid comes back.
use underling.Common.{
  ℕ, ◌*◌, ◌≡◌, ltb, not, Bool, true, false, arith, ℤ, String, Option, none, some,
}
use underling.Machine.{Env, World, ok, Trace, M, when◌then◌else◌, snprintf_length, dims_create}
use underling.Machine.Comes.{
  Returning, Comes, gives, calls, then_, either, screens, sure, answered, performs,
}
use native.Mathlib.Nat.{mul_comm}
use underling.Extents.Defs.{int_bound}
use underling.Error.{Status, error_null, mpichkn}
use underling.Error.Returns.{error_val-Comes, mpichkr-Comes}
use underling.Grid.Defs.{Grid, release_comm, destroy}
use underling.Grid.Create.{
  fail, fail_mpi, name_comms, split_p_b, split_p_a, make_topology, decompose, create, choose_dims,
  align,
}

-- What C documents of snprintf, that a number has at least one digit, and MPI of MPI_Dims_create, that the
-- sizes multiply to the number of processes, which is an `int`.
pub record HasDigits (env : Env) : Type 0 where
  pub digits : (t : Trace) (n : ℕ) → ltb 0 (env.out t (snprintf_length n) 0) ≡ true
  pub dims :
      (t : Trace) (n a b : ℕ)
      → ltb (env.out t (dims_create n a b) 0 * env.out t (dims_create n a b) 1) int_bound ≡ true

module _ {E : Env → Type 0} where
  release_comm-Comes : (c : ℕ) → Comes E (release_comm c)
  unfolding release_comm
  release_comm-Comes c = either _ (gives tt) (then_ (calls _) λ s. mpichkr-Comes _)

  destroy-Comes : (g : Option Grid) → Comes E (destroy g)
  unfolding destroy
  destroy-Comes none = gives tt
  destroy-Comes (some g) =
      then_ (release_comm-Comes _)
        λ _. then_ (release_comm-Comes _) λ _. then_ (release_comm-Comes _) λ _. performs _

  fail-Comes : (g : Grid) (reason : String) (s : Status) → Comes E (fail g reason s)
  unfolding fail error_null
  fail-Comes g reason s = then_ (destroy-Comes _) λ _. error_val-Comes reason s none

  fail_mpi-Comes : (g : Grid) (s : ℕ) → Comes E (fail_mpi g s)
  unfolding fail_mpi mpichkn
  fail_mpi-Comes g s = then_ (destroy-Comes _) λ _. then_ (mpichkr-Comes s) λ _. gives none

name_comms-Comes : (g : Grid) (i j : ℕ) → Comes HasDigits (name_comms g i j)
unfolding name_comms
name_comms-Comes g i j =
    answered _ (λ s. ltb 0 (s.out 0) ≡ true) (λ env t h. h.digits t _)
      λ a da.
        answered _ (λ s. ltb 0 (s.out 0) ≡ true) (λ env t h. h.digits t _)
          λ b db. then_ (sure _ da) λ _. then_ (sure _ db) λ _. then_ (calls _) λ s.
            either _ (fail_mpi-Comes _ _) (
              then_ (calls _) λ s.
                either _ (fail_mpi-Comes _ _)
                  (then_ (calls _) λ s. either _ (fail_mpi-Comes _ _) (gives _)))

make_topology-Comes : (g : Grid) (c : ℕ) → Comes HasDigits (make_topology g c)
unfolding make_topology split_p_a split_p_b
make_topology-Comes g c = then_ (calls _) λ s. either _ (fail_mpi-Comes _ _) (
    then_ (calls _) λ s. either _ (fail_mpi-Comes _ _) (
      then_ (calls _) λ s. either _ (fail_mpi-Comes _ _) (
        then_ (calls _) λ s.
          either _ (fail_mpi-Comes _ _)
            (then_ (calls _) λ s. either _ (fail_mpi-Comes _ _) (name_comms-Comes _ _ _)))))

-- The sizes that are chosen are those that MPI gave, perhaps exchanged.
product_fits :
    (g : Grid) (a b : ℕ)
    → ltb (a * b) int_bound ≡ true
    → let d = choose_dims g a b in not (ltb (d.0 * d.1) int_bound) ≡ false
unfolding choose_dims align
product_fits g a b h = ground (arith, h, mul_comm a b)

skipped :
    {E : Env → Type 0} {A : Type 0} (m : M A) {k : M A} (t : Bool)
    → t ≡ false
    → Comes E k
    → Comes E (when t then m else k)
unfolding when◌then◌else◌
skipped m true h p = absurd (cc)
skipped m false h p = p

create-Comes : (c : ℕ) (n0 n1 n2 a b : ℤ) → Comes HasDigits (create c n0 n1 n2 a b)
unfolding create decompose error_null
create-Comes c n0 n1 n2 a b =
    screens _ (λ reason. error_val-Comes reason _ none)
      (then_ (calls _) λ m. either _ (error_val-Comes _ _ none) (
        then_ (calls _) λ s. either _ (fail_mpi-Comes _ _) (
          answered _ (λ d. ltb (d.out 0 * d.out 1) int_bound ≡ true) (λ env t h. h.dims t _ _ _)
            λ d small. either _ (fail_mpi-Comes _ _) (
              skipped _ _ (product_fits _ (d.out 0) (d.out 1) small)
                (screens _ (λ reason. fail-Comes _ reason _) (make_topology-Comes _ c))))))

-- Under an error handler that returns, where snprintf writes a digit at least, and where the sizes that
-- MPI_Dims_create gives have a product that is an `int`, the creation of a grid returns whatever the
-- arguments are and the other calls answer, and so does the destruction of what it returned.
pub destroy-create_returns :
    (c : ℕ) (n0 n1 n2 a b : ℤ) (w : World)
    → Returning w
    → HasDigits w.env
    → (g : Option Grid) × (w1 : World) × (w2 : World) × (create c n0 n1 n2 a b w ≡ ok g w1)
      × (destroy g w1 ≡ ok tt w2)
destroy-create_returns c n0 n1 n2 a b w n e =
    let (g, w1, h, n1', e1) = (create-Comes c n0 n1 n2 a b).run w n e in
    let (u, w2, h2, _, _) = (destroy-Comes {E = HasDigits} g).run w1 n1' e1 in (g, w1, w2, h, h2)
