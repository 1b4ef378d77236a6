-- ===== src/Problem/Accounts.antt =====
-- What the operations on problems take and give back.
use underling.Common.{ℕ, ◌+◌, ◌≡◌, refl, ℤ, nonneg, String, Option, none, some, arith}
use underling.Machine.{Env, Trace, Reply, free, bcast}
use underling.Machine.Count.{Resource, gains, losses, hit, block}
use underling.Machine.Spends.{
  Spends, seq, same, pure_, halt_, branch, checked_, spend, pass, aside, assert_, gets_, allocate,
  trust,
}
use underling.Error.{einval, enomem, efailed, error_null}
use underling.Error.Laws.{error_val-Spends}
use underling.Transpose
use underling.Transpose.Accounts.{owned?}
use underling.Grid.Defs.{Grid}
use underling.Problem.Defs.{Problem, destroy, laid_out}
use underling.Problem.Create.{
  require, create_forward, create_backward, share_blocks, decompose, allocate as allocate_problem,
  given, create, with_local_memory,
}
use underling.Transpose.Defs.{Transpose}

-- What a problem owns: its block and its four transposes.
abbrev pub owned : Resource → Problem → ℕ
owned r p =
    hit r block p.block
    + owned? r p.backward_a
    + owned? r p.backward_b
    + owned? r p.forward_b
    + owned? r p.forward_a

abbrev pub owned_problem : Resource → Option Problem → ℕ
owned_problem r none = 0
owned_problem r (some p) = owned r p

-- What is assumed of MPI: a broadcast does not fail.
abbrev pub BcastSucceeds : Env → Type 0
BcastSucceeds env = (t : Trace) (a b c : ℕ) → env.status t (bcast a b c) ≡ 0

module _ {E : Env → Type 0} (r : Resource) where
  pub destroy-Spends : (p : Option Problem) → Spends E r (owned_problem r p) (destroy p) (λ _. 0)
  unfolding destroy gains losses
  destroy-Spends none = pure_ tt refl
  destroy-Spends (some p) =
      let b = hit r block p.block in
      let bB = owned? r p.backward_b in
      let fB = owned? r p.forward_b in
      let fA = owned? r p.forward_a in
      seq (b + bB + fB + fA) (omega arith) (Transpose.Accounts.destroy-Spends r p.backward_a) λ _.
        seq (b + fB + fA) (omega arith) (Transpose.Accounts.destroy-Spends r p.backward_b) λ _.
          seq (b + fA) (omega arith) (Transpose.Accounts.destroy-Spends r p.forward_b) λ _.
            seq b (omega arith) (Transpose.Accounts.destroy-Spends r p.forward_a)
              λ _. spend (free p.block) (omega arith) (λ s o. refl)

  require-Spends :
      (p : Problem) (reason : String) (t : Option Transpose) (go : Transpose → _)
      → ((u : Transpose) → Spends E r (owned r p + owned? r (some u)) (go u) (owned_problem r))
      → Spends E r (owned r p + owned? r t) (require p reason t go) (owned_problem r)
  unfolding require error_null
  require-Spends p reason none go q =
      seq 0 (omega arith) (destroy-Spends (some p)) λ _. error_val-Spends r reason efailed none _
  require-Spends p reason (some t) go q = q t

  create_forward-Spends :
      (p : Problem)
      → p.forward_b ≡ none
      → p.forward_a ≡ none
      → Spends E r (owned r p) (create_forward p) (owned_problem r)
  unfolding create_forward with_local_memory
  create_forward-Spends p e e' =
      seq (owned r p) (omega arith) (Transpose.Accounts.create_inverse-Spends r _) λ fB.
        same (omega arith) (
          require-Spends p _ fB _ λ b.
            seq (owned r (record p { forward_b = some b })) (rw e (omega arith))
              (Transpose.Accounts.create_inverse-Spends r _)
              λ fA. same (omega arith) (require-Spends _ _ fA _ λ a. pure_ _ (rw e' (omega arith))))

  pub create_backward-Spends :
      (g : Grid) (p : Problem) (flags : ℕ) (a b : Reply)
      → p.backward_a ≡ none
      → p.backward_b ≡ none
      → p.forward_b ≡ none
      → p.forward_a ≡ none
      → Spends E r (owned r p) (create_backward g p flags a b) (owned_problem r)
  unfolding create_backward
  create_backward-Spends g p flags a b eA eB e e' = aside (gets_ _) λ k.
      seq (owned r p) (omega arith) (Transpose.Accounts.create-Spends r _ _ _ _ _ _ _) λ bA.
        same (omega arith) (
          require-Spends p _ bA _ λ t.
            seq (owned r (record p { backward_a = some t })) (rw eA (omega arith))
              (Transpose.Accounts.create-Spends r _ _ _ _ _ _ _)
              λ bB. same (omega arith) (
                require-Spends _ _ bB _
                  λ u. same (rw eB (omega arith)) (create_forward-Spends _ e e')))

module _ (r : Resource) where
  share_blocks-Spends :
      (g : Grid) (p : Problem) (flags : ℕ)
      → p.backward_a ≡ none
      → p.backward_b ≡ none
      → p.forward_b ≡ none
      → p.forward_a ≡ none
      → Spends BcastSucceeds r (owned r p) (share_blocks g p flags) (owned_problem r)
  unfolding share_blocks gains losses
  share_blocks-Spends g p flags eA eB e e' =
      branch (λ _. halt_ _)
        λ _.
          trust _ _ refl (λ s o. refl) (λ env t h. h t _ _ _)
            λ a.
              trust _ _ refl (λ s o. refl) (λ env t h. h t _ _ _)
                λ b. create_backward-Spends r g p flags a b eA eB e e'

  decompose-Spends :
      (i : ℕ) (g : Grid) (howmany flags : ℕ)
      → Spends BcastSucceeds r (hit r block i) (decompose i g howmany flags) (owned_problem r)
  unfolding decompose gains losses laid_out
  decompose-Spends i g howmany flags = aside (gets_ _) λ k.
      pass _ refl (λ s o. refl)
        λ lB. aside (assert_ _) λ _.
          pass _ refl (λ s o. refl)
            λ lA.
              aside (assert_ _)
                λ _. same (omega arith) (share_blocks-Spends g _ flags refl refl refl refl)

  allocate-Spends :
      (g : Grid) (howmany flags : ℕ)
      → Spends BcastSucceeds r 0 (allocate_problem g howmany flags) (owned_problem r)
  unfolding allocate_problem error_null
  allocate-Spends g howmany flags =
      allocate _ (error_val-Spends r _ enomem none _)
        λ m. same (omega arith) (decompose-Spends _ g howmany flags)

  given-Spends :
      (g : Option Grid) (howmany flags : ℕ)
      → Spends BcastSucceeds r 0 (given g (λ h. allocate_problem h howmany flags)) (owned_problem r)
  unfolding given
  given-Spends none howmany flags = pure_ none refl
  given-Spends (some g) howmany flags = allocate-Spends g howmany flags

  pub create-Spends :
      (g : Option Grid) (howmany : ℤ) (flags : ℕ)
      → Spends BcastSucceeds r 0 (create g howmany flags) (owned_problem r)
  unfolding create error_null
  create-Spends g howmany flags =
      checked_ (λ reason. error_val-Spends r reason einval none _)
        λ _. given-Spends g (nonneg howmany) flags
