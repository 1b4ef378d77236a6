-- ===== src/Fftw/Accounts.antt =====
-- What the operations of an FFTW plan take and give back.
use underling.Common.{
  ℕ, ◌+◌, ◌≡◌, refl, ==_iff, not, ◌&&◌, Bool, false, ℤ, String, Option, none, some, List, [], ◌∷◌,
  arith,
}
use underling.Machine.{Env, M, IoDim, free, Reply, Call, invoke, ◌>>=◌}
use underling.Machine.Count.{Resource, gains, losses, hit, hit_null, block, plan}
use underling.Machine.Spends.{
  Spends, seq, pure_, gets_, branch, invoke_, spend, assert_, same, allocate, aside, checked_,
}
use underling.Error.{einval, enomem, esanity, error_null}
use underling.Error.Laws.{error_val-Spends}
use underling.FftwExtents.Defs.{FftwExtents}
use underling.Plan.Accounts.{release_plan-Spends}
use underling.Fftw.Defs.{FftwPlan, destroy}
use underling.Fftw.Complex.{
  Sign, initial, fail, reorder_complex, other_directions, c2c_transform, c2c_reorder, c2c_internal,
}
use underling.Fftw.Half.{
  c2r_postorder, c2r_transform, c2r_preorder, c2r_internal, r2c_postorder, r2c_transform,
  r2c_internal,
}

-- What a plan owns: its block and its three FFTW plans.
abbrev pub owned : Resource → FftwPlan → ℕ
owned r f =
    hit r block f.block
    + hit r plan f.plan_preorder
    + hit r plan f.plan_fftw
    + hit r plan f.plan_postorder

abbrev pub owned? : Resource → Option FftwPlan → ℕ
owned? r none = 0
owned? r (some f) = owned r f

module _ {E : Env → Type 0} (r : Resource) where
  pub destroy-Spends : (f : Option FftwPlan) → Spends E r (owned? r f) (destroy f) (λ _. 0)
  unfolding destroy gains losses
  destroy-Spends none = pure_ tt refl
  destroy-Spends (some f) =
      let b = hit r block f.block in
      let p = hit r plan f.plan_postorder in
      seq (b + hit r plan f.plan_fftw + p) (omega arith) (release_plan-Spends r f.plan_preorder)
        λ _. seq (b + p) (omega arith) (release_plan-Spends r f.plan_fftw) λ _.
          seq b (omega arith) (release_plan-Spends r f.plan_postorder)
            λ _. spend (free f.block) (omega arith) (λ s o. refl)

  fail-Spends : (f : FftwPlan) (reason : String) → Spends E r (owned r f) (fail f reason) (owned? r)
  unfolding fail error_null
  fail-Spends f reason =
      seq 0 (omega arith) (destroy-Spends (some f)) λ _. error_val-Spends r reason esanity none _

  reorder_complex-Spends :
      (src dst : ℕ) (from to : FftwExtents) (flags : ℕ)
      → Spends E r 0 (reorder_complex src dst from to flags) (λ p. hit r plan p)
  unfolding reorder_complex gains losses
  reorder_complex-Spends src dst from to flags = seq 0 (omega arith) (invoke_ _ refl) λ s.
      branch
        (λ e. same (rw ((==_iff (s.out 0) 0).0 e) (omega arith)) (error_val-Spends r _ esanity 0 _))
        λ _. pure_ _ (omega arith)

  other_directions-Spends :
      (dim : ℕ → IoDim) (valid : ℕ → Bool) (limit i j : ℕ) (o : List ℕ)
      → Spends E r 0 (other_directions dim valid limit i j o) (λ _. 0)
  unfolding other_directions
  other_directions-Spends dim valid limit i j [] = aside (assert_ _) λ _. pure_ _ refl
  other_directions-Spends dim valid limit i j (k ∷ o) =
      branch (λ _. other_directions-Spends dim valid limit i j o)
        λ _. aside (assert_ _) λ _.
          aside (assert_ _)
            λ _. aside (other_directions-Spends dim valid limit i (j + 1) o) λ _. pure_ _ refl

  -- A call that hands out an FFTW plan, and the plan's place for it.
  obtain_plan :
      {A : Type 0} {go : Reply → M A} {b : A → ℕ} {x : ℕ} (c : Call)
      → losses r c ≡ 0
      → ((s o : ℕ) → gains r c s o ≡ hit r plan o)
      → ((s : Reply) → Spends E r (x + hit r plan (s.out 0)) (go s) b)
      → Spends E r x (invoke c >>= go) b
  obtain_plan {x} c e g q =
      seq x (omega arith) (invoke_ c refl) λ s. same (omega (arith, g s.status (s.out 0))) (q s)

  c2c_transform-Spends :
      (f : FftwPlan) (from to : FftwExtents) (src dst : ℕ) (s : Sign) (flags : ℕ)
      → f.plan_fftw ≡ 0
      → Spends E r (owned r f) (c2c_transform f from to src dst s flags) (owned? r)
  unfolding c2c_transform gains losses
  c2c_transform-Spends f from to src dst s flags e =
      aside (other_directions-Spends _ _ _ _ _ _) λ others.
        obtain_plan _ refl (λ s o. refl)
          λ m.
            same (rw e (omega (arith, hit_null r plan)))
              (branch (λ _. fail-Spends _ _) λ _. pure_ _ refl)

  c2c_reorder-Spends :
      (f : FftwPlan) (l l' : Bool) (src dst : ℕ) (s : Sign) (flags : ℕ)
      → (not l && not l') ≡ false
      → f.plan_preorder ≡ 0
      → f.plan_fftw ≡ 0
      → f.plan_postorder ≡ 0
      → Spends E r (owned r f) (c2c_reorder f l l' src dst s flags) (owned? r)
  unfolding c2c_reorder
  c2c_reorder-Spends f l l' src dst s flags h e e' e'' =
      branch (λ _. c2c_transform-Spends _ _ _ _ _ _ _ e')
        λ _.
          branch
            (λ _. seq (owned r f) (omega arith) (reorder_complex-Spends src dst _ _ flags) λ p.
              same (rw e'' (omega (arith, hit_null r plan)))
                (branch (λ _. fail-Spends _ _) λ _. c2c_transform-Spends _ _ _ _ _ _ _ e'))
            λ hl.
              branch
                (λ _. seq (owned r f) (omega arith) (reorder_complex-Spends src dst _ _ flags) λ p.
                  same (rw e (omega (arith, hit_null r plan)))
                    (branch (λ _. fail-Spends _ _) λ _. c2c_transform-Spends _ _ _ _ _ _ _ e'))
                λ hl'. absurd (ground arith)

  pub c2c_internal-Spends :
      (l : ℤ) (src dst : ℕ) (s : Sign) (rigor : ℕ) (from to : FftwExtents)
      → Spends E r 0 (c2c_internal l src dst s rigor from to) (owned? r)
  unfolding c2c_internal error_null initial
  c2c_internal-Spends l src dst s rigor from to = aside (gets_ _) λ k.
      checked_ (λ reason. error_val-Spends r reason einval none _)
        λ _.
          branch (λ _. error_val-Spends r _ einval none _)
            λ h. allocate _ (error_val-Spends r _ enomem none _) λ m.
              same (omega (arith, hit_null r plan))
                (c2c_reorder-Spends _ _ _ _ _ _ _ h refl refl refl)

  c2r_postorder-Spends :
      (f : FftwPlan) (src dst flags : ℕ)
      → f.plan_postorder ≡ 0
      → Spends E r (owned r f) (c2r_postorder f src dst flags) (owned? r)
  unfolding c2r_postorder gains losses
  c2r_postorder-Spends f src dst flags e =
      branch
        (λ _. aside (assert_ _) λ _. aside (assert_ _) λ _. aside (assert_ _) λ _.
          aside (assert_ _) λ _. aside (assert_ _) λ _.
            obtain_plan _ refl (λ s o. refl)
              λ m.
                same (rw e (omega (arith, hit_null r plan)))
                  (branch (λ _. fail-Spends _ _) λ _. pure_ _ refl))
        λ _. pure_ _ refl

  c2r_transform-Spends :
      (f : FftwPlan) (src dst flags : ℕ)
      → f.plan_fftw ≡ 0
      → f.plan_postorder ≡ 0
      → Spends E r (owned r f) (c2r_transform f src dst flags) (owned? r)
  unfolding c2r_transform gains losses
  c2r_transform-Spends f src dst flags e e' = aside (other_directions-Spends _ _ _ _ _ _) λ others.
      obtain_plan _ refl (λ s o. refl)
        λ m.
          same (rw e (omega (arith, hit_null r plan)))
            (branch (λ _. fail-Spends _ _) λ _. c2r_postorder-Spends _ _ _ _ e')

  c2r_preorder-Spends :
      (f : FftwPlan) (src dst flags : ℕ)
      → f.plan_preorder ≡ 0
      → f.plan_fftw ≡ 0
      → f.plan_postorder ≡ 0
      → Spends E r (owned r f) (c2r_preorder f src dst flags) (owned? r)
  unfolding c2r_preorder gains losses
  c2r_preorder-Spends f src dst flags e e' e'' =
      branch
        (λ _. aside (assert_ _) λ _. aside (assert_ _) λ _. aside (assert_ _) λ _.
          aside (assert_ _) λ _.
            obtain_plan _ refl (λ s o. refl)
              λ m.
                same (rw e (omega (arith, hit_null r plan)))
                  (branch (λ _. fail-Spends _ _) λ _. c2r_transform-Spends _ _ _ _ e' e''))
        λ _. c2r_transform-Spends _ _ _ _ e' e''

  pub c2r_internal-Spends :
      (l : ℤ) (src dst rigor : ℕ) (from to : FftwExtents)
      → Spends E r 0 (c2r_internal l src dst rigor from to) (owned? r)
  unfolding c2r_internal error_null initial
  c2r_internal-Spends l src dst rigor from to = aside (gets_ _) λ k.
      checked_ (λ reason. error_val-Spends r reason einval none _)
        λ _.
          allocate _ (error_val-Spends r _ enomem none _)
            λ m. same (omega (arith, hit_null r plan)) (c2r_preorder-Spends _ _ _ _ refl refl refl)

  r2c_postorder-Spends :
      (f : FftwPlan) (src dst flags : ℕ)
      → f.plan_postorder ≡ 0
      → Spends E r (owned r f) (r2c_postorder f src dst flags) (owned? r)
  unfolding r2c_postorder gains losses
  r2c_postorder-Spends f src dst flags e =
      branch
        (λ _. aside (assert_ _) λ _.
          obtain_plan _ refl (λ s o. refl)
            λ m.
              same (rw e (omega (arith, hit_null r plan)))
                (branch (λ _. fail-Spends _ _) λ _. pure_ _ refl))
        λ _. pure_ _ refl

  r2c_transform-Spends :
      (f : FftwPlan) (src dst flags : ℕ)
      → f.plan_fftw ≡ 0
      → f.plan_postorder ≡ 0
      → Spends E r (owned r f) (r2c_transform f src dst flags) (owned? r)
  unfolding r2c_transform gains losses
  r2c_transform-Spends f src dst flags e e' = aside (other_directions-Spends _ _ _ _ _ _) λ others.
      obtain_plan _ refl (λ s o. refl)
        λ m.
          same (rw e (omega (arith, hit_null r plan)))
            (branch (λ _. fail-Spends _ _) λ _. r2c_postorder-Spends _ _ _ _ e')

  pub r2c_internal-Spends :
      (l : ℤ) (src dst rigor : ℕ) (from to : FftwExtents)
      → Spends E r 0 (r2c_internal l src dst rigor from to) (owned? r)
  unfolding r2c_internal error_null initial
  r2c_internal-Spends l src dst rigor from to = aside (gets_ _) λ k.
      checked_ (λ reason. error_val-Spends r reason einval none _)
        λ _.
          allocate _ (error_val-Spends r _ enomem none _)
            λ m. same (omega (arith, hit_null r plan)) (r2c_transform-Spends _ _ _ _ refl refl)
