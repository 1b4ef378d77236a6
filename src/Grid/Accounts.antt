-- ===== src/Grid/Accounts.antt =====
-- What the grid's operations take and give back.
use underling.Common.{ℕ, ◌+◌, ==_iff, ℤ, String, Option, none, some, refl, ◌≡◌, ◌≢◌, arith}
use underling.Machine.{Env, Trace, free, comm_free, cart_create, cart_sub}
use underling.Machine.Count.{Resource, gains, losses, hit, hit_null, block, comm}
use underling.Machine.Spends.{
  Spends, seq, pure_, halt_, branch, invoke_, spend, assert_, same, allocate, pass, aside, ask,
  acquire, checked_,
}
use underling.Error.Laws.{mpichkr-Spends, error_val-Spends, mpichkn-Spends}
use underling.Error.{Status, einval, enomem, error_null}
use underling.Grid.Defs.{Grid, release_comm, destroy}
use underling.Grid.Create.{
  fail, fail_mpi, name_comms, split_p_b, split_p_a, make_topology, decompose, initial, create,
}

pub release_comm-Spends :
    {E : Env → Type 0} (r : Resource) (c : ℕ) → Spends E r (hit r comm c) (release_comm c) (λ _. 0)
unfolding release_comm gains losses
release_comm-Spends r c =
    branch (λ e. pure_ tt (rw ((==_iff c 0).0 e) (hit_null r comm)))
      (λ e. seq 0 (omega arith) (invoke_ (comm_free c) refl) (λ s. mpichkr-Spends r s.status))

-- What a grid owns: its block and its three communicators.
abbrev pub owned : Resource → Grid → ℕ
owned r g =
    hit r block g.block + hit r comm g.g_comm + hit r comm g.p_a_comm + hit r comm g.p_b_comm

-- What the pointer owns that an operation returns.
abbrev pub owned? : Resource → Option Grid → ℕ
owned? r none = 0
owned? r (some g) = owned r g

pub destroy-Spends :
    {E : Env → Type 0} (r : Resource) (g : Option Grid)
    → Spends E r (owned? r g) (destroy g) (λ _. 0)
unfolding destroy gains losses
destroy-Spends r none = pure_ tt (omega arith)
destroy-Spends r (some g) =
    let b = hit r block g.block in
    let p_a = hit r comm g.p_a_comm in
    let p_b = hit r comm g.p_b_comm in
    seq (b + p_a + p_b) (omega arith) (release_comm-Spends r g.g_comm) λ _.
      seq (b + p_b) (omega arith) (release_comm-Spends r g.p_a_comm) λ _.
        seq b (omega arith) (release_comm-Spends r g.p_b_comm)
          λ _. spend (free g.block) (omega arith) (λ s o. refl)

-- A call that fails leaves the communicator as it was: NULL.
pub record LeavesNull (env : Env) : Type 0 where
  pub create :
      (t : Trace) (c a b : ℕ)
      → env.status t (cart_create c a b) ≢ 0
      → env.out t (cart_create c a b) 0 ≡ 0
  pub sub :
      (t : Trace) (c a b : ℕ) → env.status t (cart_sub c a b) ≢ 0 → env.out t (cart_sub c a b) 0 ≡ 0

module _ {E : Env → Type 0} (r : Resource) where
  pub fail-Spends :
      (g : Grid) (reason : String) (e : Status)
      → Spends E r (owned r g) (fail g reason e) (owned? r)
  unfolding fail error_null
  fail-Spends g reason e =
      seq 0 (omega arith) (destroy-Spends r (some g)) (λ _. error_val-Spends r reason e none _)

  pub fail_mpi-Spends : (g : Grid) (s : ℕ) → Spends E r (owned r g) (fail_mpi g s) (owned? r)
  unfolding fail_mpi
  fail_mpi-Spends g s = seq 0 (omega arith) (destroy-Spends r (some g)) (λ _. mpichkn-Spends r s _)

  pub name_comms-Spends :
      (g : Grid) (i j : ℕ) → Spends E r (owned r g) (name_comms g i j) (owned? r)
  unfolding name_comms gains losses
  name_comms-Spends g i j =
      pass _ refl (λ s o. refl)
        λ a.
          pass _ refl (λ s o. refl)
            λ b. aside (assert_ _) λ _. aside (assert_ _) λ _.
              ask _ refl (λ s o. refl) (λ s. fail_mpi-Spends g s.status)
                λ _.
                  ask _ refl (λ s o. refl) (λ s. fail_mpi-Spends g s.status)
                    λ _.
                      ask _ refl (λ s o. refl) (λ s. fail_mpi-Spends g s.status)
                        λ _. pure_ (some g) refl

module _ (r : Resource) where
  split_p_b-Spends :
      (g : Grid) (i : ℕ)
      → g.p_b_comm ≡ 0
      → Spends LeavesNull r (owned r g) (split_p_b g i) (owned? r)
  unfolding split_p_b gains losses
  split_p_b-Spends g i e =
      acquire _ refl (λ s o. refl) (λ env t h. h.sub t _ _ _)
        (λ s. same (rw e (omega (arith, hit_null r comm))) (fail_mpi-Spends r _ s.status))
        λ s. same (rw e (omega (arith, hit_null r comm))) (
          ask _ refl (λ s o. refl) (λ k. fail_mpi-Spends r _ k.status)
            (λ k. name_comms-Spends r _ i (k.out 0)))

  split_p_a-Spends :
      (g : Grid)
      → g.p_a_comm ≡ 0
      → g.p_b_comm ≡ 0
      → Spends LeavesNull r (owned r g) (split_p_a g) (owned? r)
  unfolding split_p_a gains losses
  split_p_a-Spends g e e' =
      acquire _ refl (λ s o. refl) (λ env t h. h.sub t _ _ _)
        (λ s. same (rw e (omega (arith, hit_null r comm))) (fail_mpi-Spends r _ s.status))
        λ s. same (rw e (omega (arith, hit_null r comm))) (
          ask _ refl (λ s o. refl) (λ k. fail_mpi-Spends r _ k.status)
            (λ k. split_p_b-Spends _ (k.out 0) e'))

  make_topology-Spends :
      (g : Grid) (c : ℕ)
      → g.g_comm ≡ 0
      → g.p_a_comm ≡ 0
      → g.p_b_comm ≡ 0
      → Spends LeavesNull r (owned r g) (make_topology g c) (owned? r)
  unfolding make_topology gains losses
  make_topology-Spends g c e e' e'' =
      acquire _ refl (λ s o. refl) (λ env t h. h.create t _ _ _)
        (λ s. same (rw e (omega (arith, hit_null r comm))) (fail_mpi-Spends r _ s.status))
        λ s. same (rw e (omega (arith, hit_null r comm))) (split_p_a-Spends _ e' e'')

  decompose-Spends :
      (g : Grid) (c : ℕ)
      → g.g_comm ≡ 0
      → g.p_a_comm ≡ 0
      → g.p_b_comm ≡ 0
      → Spends LeavesNull r (owned r g) (decompose g c) (owned? r)
  unfolding decompose gains losses
  decompose-Spends g c e e' e'' =
      ask _ refl (λ s o. refl) (λ s. fail_mpi-Spends r g s.status)
        λ s.
          ask _ refl (λ s o. refl) (λ k. fail_mpi-Spends r g k.status)
            λ k.
              branch (λ _. halt_ _)
                λ _.
                  checked_ (λ reason. fail-Spends r _ reason einval)
                    (λ _. make_topology-Spends _ c e e' e'')

  pub create-Spends :
      (c : ℕ) (n0 n1 n2 p_a p_b : ℤ) → Spends LeavesNull r 0 (create c n0 n1 n2 p_a p_b) (owned? r)
  unfolding create error_null gains losses initial
  create-Spends c n0 n1 n2 p_a p_b =
      checked_ (λ reason. error_val-Spends r reason einval none _)
        λ _.
          allocate _ (error_val-Spends r _ enomem none _)
            λ s. same (omega (arith, hit_null r comm)) (decompose-Spends _ c refl refl refl)
