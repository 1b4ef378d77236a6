-- ===== src/Transpose/Accounts.antt =====
-- What the operations on transposes take and give back.
use underling.Common.{ℕ, ◌+◌, ◌≡◌, refl, sym, String, Option, none, some, arith}
use underling.Machine.{Env, comm_free, free, first_out}
use underling.Machine.Count.{Resource, gains, losses, hit, hit_null, block, comm, plan}
use underling.Machine.Spends.{
  Spends, seq, same, pure_, branch, invoke_, spend, pass, aside, ask, obtain, gets_, allocate,
}
use underling.Error.{einval, enomem, esanity, error_null}
use underling.Error.Laws.{mpichkr-Spends, error_val-Spends}
use underling.Grid.Accounts.{release_comm-Spends}
use underling.Transpose.Defs.{
  Transpose, comm_dup_with_name, destroy, fix_local, workspace, create, create_inverse, fftw_plan,
  with_local, without_local,
}

abbrev pub owned : Resource → Transpose → ℕ
owned r t = hit r block t.block + hit r comm t.comm

abbrev pub owned? : Resource → Option Transpose → ℕ
owned? r none = 0
owned? r (some t) = owned r t

pub destroy-Spends :
    {E : Env → Type 0} (r : Resource) (t : Option Transpose)
    → Spends E r (owned? r t) (destroy t) (λ _. 0)
unfolding destroy losses gains
destroy-Spends r none = pure_ tt refl
destroy-Spends r (some t) =
    seq (hit r block t.block) (omega arith) (release_comm-Spends r t.comm)
      λ _. spend (free t.block) (omega arith) (λ s o. refl)

null_comm : (r : Resource) → 0 ≡ hit r comm 0
null_comm r = sym (hit_null r comm)

module _ {E : Env → Type 0} (r : Resource) where
  pub comm_dup_with_name-Spends : (c : ℕ) → Spends E r 0 (comm_dup_with_name c) (λ d. hit r comm d)
  unfolding comm_dup_with_name losses gains
  comm_dup_with_name-Spends c =
      branch (λ _. pure_ 0 (null_comm r))
        λ _.
          ask _ refl (λ s o. refl)
            (λ s. aside (mpichkr-Spends r s.status) λ _. pure_ 0 (null_comm r))
            λ n.
              obtain _ refl (λ s o. refl)
                (λ d. aside (mpichkr-Spends r d.status) λ _. pure_ 0 (null_comm r))
                λ d.
                  branch (λ _. pure_ _ (omega arith))
                    λ _.
                      ask _ refl (λ s o. refl)
                        (λ s. aside (mpichkr-Spends r s.status) λ _.
                          seq 0 (omega arith)
                            (invoke_ {x = hit r comm (first_out d.status (d.out 0))} (comm_free _)
                              refl)
                            λ f.
                              same (omega arith)
                                (aside (mpichkr-Spends r f.status) λ _. pure_ 0 (null_comm r)))
                        (λ s. pure_ _ (omega arith))

  pub fix_local-Spends :
      (t : Transpose) (reason : String) → Spends E r (owned r t) (fix_local t reason) (owned? r)
  unfolding fix_local error_null losses gains without_local with_local
  fix_local-Spends t reason =
      branch
        (λ _.
          seq 0 (omega arith) (destroy-Spends r (some t))
            λ _. error_val-Spends r reason esanity none _)
        λ _. branch (λ _. pure_ _ refl) λ _. pass _ refl (λ s o. refl) λ s. pure_ _ refl

  pub create-Spends :
      (d0 d1 howmany block0 block1 c flags : ℕ)
      → Spends E r 0 (create d0 d1 howmany block0 block1 c flags) (owned? r)
  unfolding create error_null losses gains workspace
  create-Spends d0 d1 howmany block0 block1 c flags =
      branch (λ _. error_val-Spends r _ einval none _)
        λ _. allocate _ (error_val-Spends r _ enomem none _) λ m.
          seq (hit r block (m.out 0)) (omega arith) (comm_dup_with_name-Spends c)
            λ d. same (omega arith) (fix_local-Spends _ _)

  pub create_inverse-Spends : (t : Option Transpose) → Spends E r 0 (create_inverse t) (owned? r)
  unfolding create_inverse error_null losses gains workspace
  create_inverse-Spends none = error_val-Spends r _ einval none _
  create_inverse-Spends (some f) = aside (gets_ _) λ k.
      branch (λ _. error_val-Spends r _ esanity none _)
        λ _. allocate _ (error_val-Spends r _ enomem none _) λ m.
          seq (hit r block (m.out 0)) (omega arith) (comm_dup_with_name-Spends f.comm)
            λ d. same (omega arith) (fix_local-Spends _ _)

  pub fftw_plan-Spends :
      (t : Option Transpose) (src dst flags : ℕ)
      → Spends E r 0 (fftw_plan t src dst flags) (λ p. hit r plan p)
  unfolding fftw_plan losses gains
  fftw_plan-Spends none src dst flags =
      same (omega (arith, hit_null r plan)) (error_val-Spends r _ einval 0 _)
  fftw_plan-Spends (some t) src dst flags =
      branch (λ _. seq 0 (omega arith) (invoke_ _ refl) λ s. pure_ _ (omega arith))
        (λ _. seq 0 (omega arith) (invoke_ _ refl) λ s. pure_ _ (omega arith))
