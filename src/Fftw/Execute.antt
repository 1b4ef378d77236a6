-- ===== src/Fftw/Execute.antt =====
-- The execution of FFTW plans.
use underling.Common.{
  ℕ, ◌+◌, ◌≡◌, refl, ◌≢◌, ◌==◌, false, Bool-cases, inl, inr, none, some, List, [], ◌∷◌, ◌++◌, arith,
  if◌then◌else◌,
}
use underling.Machine.{
  M, World, ok, ◌>>=◌, checked, Call, execute_r2r, execute_split_dft, execute_split_dft_c2r,
  execute_split_dft_r2c,
}
use underling.Machine.At.{after_call}
use underling.Error.{success, reporting}
use underling.Fftw.Defs.{
  TransformType, unspecified, c2c_forward, c2c_backward, c2r_backward, r2c_forward, FftwPlan,
  check_execution, reorder, transform, execute,
}

-- The calls of an execution, in their order: the reordering before, the transform, and the
-- reordering behind.
abbrev reordering : (plan src dst : ℕ) → List Call
reordering plan src dst = if plan == 0 then [] else execute_r2r plan src dst ∷ []

abbrev transforming : TransformType → FftwPlan → (src dst : ℕ) → List Call
transforming unspecified f src dst = []
transforming c2c_forward f src dst =
    execute_split_dft f.plan_fftw (src + f.offset.ri) (src + f.offset.ii) (dst + f.offset.ro)
      (dst + f.offset.io)
    ∷ []
transforming c2c_backward f src dst =
    execute_split_dft f.plan_fftw (src + f.offset.ri) (src + f.offset.ii) (dst + f.offset.ro)
      (dst + f.offset.io)
    ∷ []
transforming c2r_backward f src dst =
    execute_split_dft_c2r f.plan_fftw (src + f.offset.ri) (src + f.offset.ii) dst ∷ []
transforming r2c_forward f src dst =
    execute_split_dft_r2c f.plan_fftw src (dst + f.offset.ro) (dst + f.offset.io) ∷ []

abbrev pub calls : FftwPlan → (src dst : ℕ) → List Call
calls f src dst =
    reordering f.plan_preorder src dst
    ++ (transforming f.type f src dst ++ reordering f.plan_postorder src dst)

abbrev pub after_calls : List Call → World → World
after_calls [] w = w
after_calls (c ∷ r) w = after_calls r (after_call c w)

-- What an execution on the buffers needs.
pub record IsReady (src dst : ℕ) (f : FftwPlan) : Type 0 where
  pub kind : f.type ≢ unspecified
  pub planned : f.plan_fftw ≢ 0
  pub reads : src ≢ 0
  pub writes : dst ≢ 0
  pub place : f.in_place ≡ (src == dst)
  pub preorders : f.in_place ≡ false → f.plan_preorder ≡ 0
  pub postorders : f.in_place ≡ false → f.plan_postorder ≡ 0

-- The switch, the statement behind it included.
transform-calls :
    (t : TransformType) (f : FftwPlan) (src dst : ℕ) (go : M _) (u u' : World)
    → t ≢ unspecified
    → go (after_calls (transforming t f src dst) u) ≡ ok success u'
    → transform t f src dst go u ≡ ok success u'
unfolding transform reporting
transform-calls unspecified f src dst go u u' n h = absurd (n refl)
transform-calls c2c_forward f src dst go u u' n h = h
transform-calls c2c_backward f src dst go u u' n h = h
transform-calls c2r_backward f src dst go u u' n h = h
transform-calls r2c_forward f src dst go u u' n h = h

after_calls-append :
    (p q : List Call) (w : World) → after_calls (p ++ q) w ≡ after_calls q (after_calls p w)
after_calls-append [] q w = refl
after_calls-append (c ∷ p) q w = after_calls-append p q (after_call c w)

check_execution-none :
    (f : FftwPlan) (src dst : ℕ) → IsReady src dst f → check_execution f src dst ≡ none
unfolding check_execution
check_execution-none f src dst r = ground (arith, r.planned, r.reads, r.writes, r.place)

reorder-calls :
    (f : FftwPlan) (plan src dst : ℕ) (u : World)
    → f.in_place ≡ (src == dst)
    → (f.in_place ≡ false → plan ≡ 0)
    → reorder f plan src dst u ≡ ok tt (after_calls (reordering plan src dst) u)
unfolding reorder reporting
reorder-calls f plan src dst u e h = elim (Bool-cases f.in_place) [
  | inl t ↦ ground arith
  | inr t ↦ rw (h t) refl
]

pub IsReady-executes :
    (f : FftwPlan) (src dst : ℕ) (u : World)
    → IsReady src dst f
    → execute (some f) src dst u ≡ ok success (after_calls (calls f src dst) u)
unfolding execute checked ◌>>=◌
IsReady-executes f src dst u r =
    let u1 = after_calls (reordering f.plan_preorder src dst) u in
    let u2 = after_calls (transforming f.type f src dst) u1 in
    rw
      (
        check_execution-none f src dst r,
        reorder-calls f f.plan_preorder src dst u r.place r.preorders,
        after_calls-append (reordering f.plan_preorder src dst)
            (transforming f.type f src dst ++ reordering f.plan_postorder src dst) u,
        after_calls-append (transforming f.type f src dst) (reordering f.plan_postorder src dst) u1,
      )
      (transform-calls f.type f src dst _ u1 _ r.kind
        (rw (reorder-calls f f.plan_postorder src dst u2 r.place r.postorders) refl))
