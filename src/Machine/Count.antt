-- ===== src/Machine/Count.antt =====
-- Which resources the code has been given and has given back, read off the trace.
use underling.Common.{ℕ, ◌+◌, ◌≡◌, refl, ◌==◌, ◌&&◌, Bool, true, false, [], ◌∷◌, if◌then◌else◌}
use underling.Machine.Run.{
  Call, Trace, World, malloc, free, fftw_malloc, fftw_free, comm_dup, comm_free, cart_create,
  cart_sub, plan_many_transpose, plan_guru_r2r, plan_guru_split_dft, plan_guru_split_dft_c2r,
  plan_guru_split_dft_r2c, destroy_plan,
}

-- Memory blocks, MPI communicators, FFTW plans, and the memory of `fftw_malloc`.
pub data Kind : Type 0 where
  block comm plan field : Kind

abbrev pub same_kind : Kind → Kind → Bool
same_kind block block = true
same_kind comm comm = true
same_kind plan plan = true
same_kind field field = true
same_kind _ _ = false

pub record Resource : Type 0 where
  pub kind : Kind
  pub handle : ℕ

-- 1 if the handle is not NULL and is the resource's, else 0.
unfoldable pub hit : Resource → Kind → ℕ → ℕ
hit r k h = if h == 0 then 0 else (if same_kind r.kind k && (r.handle == h) then 1 else 0)

pub hit_null : (r : Resource) (k : Kind) → hit r k 0 ≡ 0
unfolding hit
hit_null r k = refl

-- A successful call that makes a communicator hands it out.
abbrev pub comm_out : Resource → ℕ → ℕ → ℕ
comm_out r status out = if status == 0 then hit r comm out else 0

-- How often an event hands the resource to the code.
unfoldable pub gains : Resource → Call → ℕ → ℕ → ℕ
gains r (malloc _) s o = hit r block o
gains r (fftw_malloc _) s o = hit r field o
gains r (comm_dup _) s o = comm_out r s o
gains r (cart_create _ _ _) s o = comm_out r s o
gains r (cart_sub _ _ _) s o = comm_out r s o
gains r (plan_many_transpose _ _ _ _ _ _ _ _ _) s o = hit r plan o
gains r (plan_guru_r2r _ _ _ _) s o = hit r plan o
gains r (plan_guru_split_dft _ _ _ _ _ _ _) s o = hit r plan o
gains r (plan_guru_split_dft_c2r _ _ _ _ _ _) s o = hit r plan o
gains r (plan_guru_split_dft_r2c _ _ _ _ _ _) s o = hit r plan o
gains r _ s o = 0

-- How often an event gives it back.
unfoldable pub losses : Resource → Call → ℕ
losses r (free p) = hit r block p
losses r (fftw_free p) = hit r field p
losses r (comm_free c) = hit r comm c
losses r (destroy_plan p) = hit r plan p
losses r _ = 0

unfoldable pub gained : Resource → Trace → ℕ
unfolding gains
gained r [] = 0
gained r (e ∷ t) = gains r e.call e.status e.out + gained r t

unfoldable pub lost : Resource → Trace → ℕ
unfolding losses
lost r [] = 0
lost r (e ∷ t) = losses r e.call + lost r t

-- From one world to another the code's holdings of the resource go from `a` to `b`: what it was
-- given and what it gave back in between account for the change.
abbrev pub Accounts : Resource → World → World → ℕ → ℕ → Type 0
Accounts r w w' a b =
    gained r w'.trace + lost r w.trace + a ≡ gained r w.trace + lost r w'.trace + b
