-- ===== src/Transpose/Success.antt =====
-- Transposes are created where every call does its work.
use underling.Common.{ℕ, ◌≡◌, ◌≢◌, refl, false, Option, none, some, String, arith}
use underling.Machine.{Env}
use underling.Machine.Works.{Works}
use underling.Machine.Succeeds.{Succeeds, gives, then_, asks, reads, skips, either}
use underling.Transpose.Defs.{
  Transpose, comm_dup_with_name, fix_local, without_local, with_local, workspace, create,
  create_inverse, inverse_flags, has_other_flags,
}

-- There is a value, and it is such.
abbrev pub IsSome : {A : Type 0} → (A → Type 0) → Option A → Type 0
IsSome P none = ⊥
IsSome P (some v) = P v

abbrev pub Ready : (flags : ℕ) → Transpose → Type 0
Ready flags t = (t.comm ≢ 0) × (t.flags ≡ flags)

module _ {e : Env} (ok : Works e) where
  comm_dup_with_name-Succeeds : (c : ℕ) → c ≢ 0 → Succeeds e (comm_dup_with_name c) (λ d. d ≢ 0)
  unfolding comm_dup_with_name
  comm_dup_with_name-Succeeds c h = skips _ (ground (arith, h)) (
      asks _ (λ s. s.status ≡ 0) (λ t. ok.status t _)
        λ n z. skips _ (ground (arith, z)) (
          asks _ (λ s. (s.status ≡ 0) × (s.out 0 ≢ 0)) (λ t. (ok.status t _, ok.comm_dup t c))
            λ d y. skips _ (ground (arith, y)) (
              either _ (λ _. gives _ (ground (arith, y)))
                λ _.
                  asks _ (λ s. s.status ≡ 0) (λ t. ok.status t _)
                    λ s x. skips _ (ground (arith, x)) (gives _ (ground (arith, y))))))

  fix_local-Succeeds :
      (t : Transpose) (reason : String)
      → t.comm ≢ 0
      → Succeeds e (fix_local t reason) (IsSome (Ready t.flags))
  unfolding fix_local without_local with_local
  fix_local-Succeeds t reason h = skips _ (ground (arith, h)) (
      either _ (λ _. gives _ (h, refl))
        λ _. asks _ (λ _. Unit {0}) (λ _. tt) λ r _. gives _ (h, refl))

  pub create-Succeeds :
      (d0 d1 howmany block0 block1 c flags : ℕ)
      → c ≢ 0
      → Succeeds e (create d0 d1 howmany block0 block1 c flags) (IsSome (Ready flags))
  unfolding create workspace
  create-Succeeds d0 d1 howmany block0 block1 c flags h = skips _ (ground (arith, h)) (
      asks _ (λ s. s.out 0 ≢ 0) (λ t. ok.malloc t _)
        λ m y.
          skips _ (ground (arith, y))
            (then_ (comm_dup_with_name-Succeeds c h) λ d k. fix_local-Succeeds _ _ k))

  pub create_inverse-Succeeds :
      (t : Transpose)
      → t.comm ≢ 0
      → has_other_flags e.fftw t.flags ≡ false
      → Succeeds e (create_inverse (some t)) (IsSome (Ready (inverse_flags e.fftw t.flags)))
  unfolding create_inverse workspace
  create_inverse-Succeeds t h f = reads _ (
      skips _ f (
        asks _ (λ s. s.out 0 ≢ 0) (λ t. ok.malloc t _)
          λ m y.
            skips _ (ground (arith, y))
              (then_ (comm_dup_with_name-Succeeds t.comm h) λ d k. fix_local-Succeeds _ _ k)))
