-- ===== src/Fftw/Ready.antt =====
-- Plans that are created are ready to execute on their buffers.
use underling.Common.{ℕ, ◌≡◌, sym, ◌∙◌, ◌≢◌, ℤ, String, Option, none, some, arith}
use underling.Machine.{M, World, ok, FftwConstants}
use underling.Machine.Yields.{Yields, returns, bind, both, cases, passes, anything}
use underling.Machine.At.{weaken}
use underling.Error.{success, error_null, error_val}
use underling.FftwExtents.Defs.{FftwExtents}
use underling.Problem.Defs.{Problem}
use underling.Fftw.Defs.{TransformType, unspecified, FftwPlan, execute}
use underling.Fftw.Complex.{Sign, forward, backward, type_of, check_arguments, c2c_internal}
use underling.Fftw.Half.{c2r_internal, r2c_internal}
use underling.Fftw.Create.{
  with_packing, not_in_place, create_c2c, create_c2r_backward, create_r2c_forward,
}
use underling.Fftw.Made.{Made, c2c_internal-Made, c2r_internal-Made, r2c_internal-Made}
use underling.Fftw.Execute.{calls, after_calls, IsReady, IsReady-executes}

module _ (src dst : ℕ) where
  abbrev Ready : Option FftwPlan → Type 0
  Ready none = Unit
  Ready (some f) = IsReady src dst f

  abbrev Buffers : Option FftwPlan → Type 0
  Buffers none = Unit
  Buffers (some f) = (src ≢ 0) × (dst ≢ 0)

  Buffers-any : (src ≢ 0) × (dst ≢ 0) → (o : Option FftwPlan) → Buffers o
  Buffers-any h none = tt
  Buffers-any h (some f) = h

  check_arguments-ne_zero :
      (k : FftwConstants) (l : ℤ) (rigor : ℕ)
      → check_arguments k l src dst rigor ≡ none
      → (src ≢ 0) × (dst ≢ 0)
  unfolding check_arguments
  check_arguments-ne_zero k l rigor h = ground arith

  Made-Ready :
      (i : ℕ) (t : TransformType) (from to : FftwExtents) (o : Option FftwPlan)
      → t ≢ unspecified
      → Made i t from to src dst o × Buffers o
      → Ready o
  Made-Ready i t from to none n m = tt
  Made-Ready i t from to (some f) n (m, b) = record {
    kind = λ e. n (sym m.0.kind ∙ e);
    planned = m.1;
    reads = b.0;
    writes = b.1;
    place = m.0.place;
    preorders = m.0.preorders;
    postorders = m.0.postorders;
  }

  module _ (l : ℤ) (rigor : ℕ) (from to : FftwExtents) where
    c2c_internal-Ready : (s : Sign) → Yields (c2c_internal l src dst s rigor from to) Ready
    unfolding c2c_internal error_null error_val
    c2c_internal-Ready s =
        weaken
          (both (c2c_internal-Made l src dst rigor from to s) (
            bind _ λ k.
              passes (λ _. bind _ λ _. returns none tt)
                λ e. weaken anything λ o _. Buffers-any (check_arguments-ne_zero k l rigor e) o))
          λ o. Made-Ready _ _ _ _ o (type_of-ne s)
      where
        type_of-ne : (s : Sign) → type_of s ≢ unspecified
        type_of-ne forward = cc
        type_of-ne backward = cc

    c2r_internal-Ready : Yields (c2r_internal l src dst rigor from to) Ready
    unfolding c2r_internal error_null error_val
    c2r_internal-Ready =
        weaken
          (both (c2r_internal-Made l src dst rigor from to) (
            bind _ λ k.
              passes (λ _. bind _ λ _. returns none tt)
                λ e. weaken anything λ o _. Buffers-any (check_arguments-ne_zero k l rigor e) o))
          λ o. Made-Ready _ _ _ _ o cc

    r2c_internal-Ready : Yields (r2c_internal l src dst rigor from to) Ready
    unfolding r2c_internal error_null error_val
    r2c_internal-Ready =
        weaken
          (both (r2c_internal-Made l src dst rigor from to) (
            bind _ λ k.
              passes (λ _. bind _ λ _. returns none tt)
                λ e. weaken anything λ o _. Buffers-any (check_arguments-ne_zero k l rigor e) o))
          λ o. Made-Ready _ _ _ _ o cc

  with_packing-Ready :
      (l : ℤ) (flags : ℕ) (e : FftwExtents) (go : FftwExtents → M (Option FftwPlan))
      → ((e' : FftwExtents) → Yields (go e') Ready)
      → Yields (with_packing l flags src dst e go) Ready
  unfolding with_packing error_null error_val
  with_packing-Ready l flags e go q =
      cases (λ _. cases (λ _. bind _ λ _. returns none tt) λ _. q _) λ _. q _

  not_in_place-Ready :
      (l : ℤ) (e : FftwExtents) (reason : String) (go : M (Option FftwPlan))
      → Yields go Ready
      → Yields (not_in_place l src dst e reason go) Ready
  unfolding not_in_place error_null error_val
  not_in_place-Ready l e reason go q = cases (λ _. bind _ λ _. returns none tt) λ _. q

-- A complex transform that is created executes on its buffers: the calls are the reordering before,
-- the transform, and the reordering behind, as far as they were planned, in this order.
pub create_c2c-executes :
    (s : Sign) (p : Option Problem) (i : ℤ) (src dst rigor flags : ℕ) (w w' u : World)
    (f : FftwPlan)
    → create_c2c s p i src dst rigor flags w ≡ ok (some f) w'
    → execute (some f) src dst u ≡ ok success (after_calls (calls f src dst) u)
unfolding create_c2c
create_c2c-executes s p i src dst rigor flags w w' u f h = IsReady-executes f src dst u (
    (bind _ λ e. bind _ λ from. bind _ λ a. bind _ λ to.
        with_packing-Ready src dst i flags to _
          λ out. c2c_internal-Ready src dst i rigor from out s).run
      w w' (some f) h)

-- A transform from complex to real that is created executes on its buffers: the calls are the
-- reordering before, the transform, and the reordering behind, as far as they were planned, in this
-- order.
pub create_c2r_backward-executes :
    (p : Option Problem) (i : ℤ) (src dst rigor flags : ℕ) (w w' u : World) (f : FftwPlan)
    → create_c2r_backward p i src dst rigor flags w ≡ ok (some f) w'
    → execute (some f) src dst u ≡ ok success (after_calls (calls f src dst) u)
unfolding create_c2r_backward
create_c2r_backward-executes p i src dst rigor flags w w' u f h = IsReady-executes f src dst u (
    (bind _ λ e. bind _ λ from. bind _ λ a. bind _ λ to.
        with_packing-Ready src dst i flags to _ λ out.
          not_in_place-Ready src dst i from _ _ (c2r_internal-Ready src dst i rigor from out)).run
      w w' (some f) h)

-- A transform from real to complex that is created executes on its buffers: the calls are the
-- reordering before, the transform, and the reordering behind, as far as they were planned, in this
-- order.
pub create_r2c_forward-executes :
    (p : Option Problem) (i : ℤ) (src dst rigor flags : ℕ) (w w' u : World) (f : FftwPlan)
    → create_r2c_forward p i src dst rigor flags w ≡ ok (some f) w'
    → execute (some f) src dst u ≡ ok success (after_calls (calls f src dst) u)
unfolding create_r2c_forward
create_r2c_forward-executes p i src dst rigor flags w w' u f h = IsReady-executes f src dst u (
    (bind _ λ e. bind _ λ to. bind _ λ a. bind _ λ from.
        with_packing-Ready src dst i flags from _ λ out.
          not_in_place-Ready src dst i to _ _ (r2c_internal-Ready src dst i rigor out to)).run
      w w' (some f) h)
