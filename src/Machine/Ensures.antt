-- ===== src/Machine/Ensures.antt =====
-- A calculus for results in one environment, which no command changes: whatever a command returns,
-- if it comes back, satisfies a predicate, and the environment is the same.
use mathlib.Core.Path.{subst}
use underling.Common.{ℕ, ◌≡◌, refl, sym, ◌∙◌, Bool, true, false, Option, none, some, String}
use underling.Machine.Run.{
  M, Env, World, ok, halt, Stop, Call, Trace, Reply, FftwConstants, invoke, gets, assert, pure,
  ◌>>=◌, when◌then◌else◌, checked,
}
use underling.Machine.Count.{Resource, block}
use underling.Machine.Spends.{Spends, and_then-ok}
use underling.Machine.Yields.{Yields}
use underling.Machine.At.{At}

pub record Ensures {A : Type 0} (e : Env) (m : M A) (Q : A → Type 0) : Type 0 where
  pub run : (w w' : World) (v : A) → w.env ≡ e → m w ≡ ok v w' → Q v × (w'.env ≡ e)

-- Any resource, where only what a calculus for holdings says of the environment is used.
abbrev pub any_resource : Resource
any_resource = record { kind = block; handle = 0 }

-- That the environment stays is part of the calculus for holdings.
pub kept :
    {A : Type 0} {e : Env} {m : M A} {r : Resource} {a : ℕ} {b : A → ℕ} {Q : A → Type 0}
    → Spends (λ _. Unit {0}) r a m b
    → Yields m Q
    → Ensures e m Q
kept s y = record { run = λ w w' v h o. (y.run w w' v o, (s.run w w' v tt o).1 ∙ h) }

module _ {e : Env} {A : Type 0} {Q : A → Type 0} where
  pub gives : (v : A) → Q v → Ensures e (pure v) Q
  gives v q = record { run = λ w w' u h o. (subst Q (cc) q, cc) }

  pub stops : (s : Stop) → Ensures e (halt s) Q
  stops s = record { run = λ w w' u h o. absurd (cc) }

  pub then_ :
      {B : Type 0} {m : M B} {k : B → M A} {P : B → Type 0}
      → Ensures e m P
      → ((v : B) → P v → Ensures e (k v) Q)
      → Ensures e (m >>= k) Q
  unfolding ◌>>=◌
  then_ {m} {k} p q = record {
    run = λ w w' v h o.
        let (u, w1, o1, o2) = and_then-ok (m w) k v w' o in
        let (x, h1) = p.run w w1 u h o1 in (q u x).run w1 w' v h1 o2;
  }

  -- A call of which something is known in this environment.
  pub asks :
      {k : Reply → M A} (c : Call) (P : Reply → Type 0)
      → ((t : Trace) → P (record { status = e.status t c; out = e.out t c }))
      → ((s : Reply) → P s → Ensures e (k s) Q)
      → Ensures e (invoke c >>= k) Q
  unfolding ◌>>=◌ invoke
  asks {k} c P p q = record {
    run = λ w w' v h o.
        (q (record { status = w.env.status w.trace c; out = w.env.out w.trace c })
            (subst (λ (x : Env). P (record { status = x.status w.trace c; out = x.out w.trace c }))
              (sym h) (p w.trace))).run
          _ w' v h o;
  }

  pub reads :
      (k : FftwConstants → M A)
      → Ensures e (k e.fftw) Q
      → Ensures e (gets (λ w. w.env.fftw) >>= k) Q
  unfolding ◌>>=◌
  reads k q = record {
    run = λ w w' v h o. q.run w w' v h (subst (λ (x : Env). k x.fftw w ≡ ok v w') h o);
  }

  pub tests : (b : Bool) (k : Unit {0} → M A) → Ensures e (k tt) Q → Ensures e (assert b >>= k) Q
  unfolding ◌>>=◌
  tests true k q = record { run = λ w w' v h o. q.run w w' v h o }
  tests false k q = record { run = λ w w' v h o. absurd (cc) }

  pub forks :
      {t : Bool} {m n : M A}
      → (t ≡ true → Ensures e m Q)
      → (t ≡ false → Ensures e n Q)
      → Ensures e (when t then m else n) Q
  unfolding when◌then◌else◌
  forks {t = true} p q = p refl
  forks {t = false} p q = q refl

  pub screens :
      {bad : String → M A} {go : M A} (o : Option String)
      → ((reason : String) → Ensures e (bad reason) Q)
      → Ensures e go Q
      → Ensures e (checked o bad go) Q
  unfolding checked
  screens none p q = q
  screens (some reason) p q = p reason

pub kept_at :
    {A : Type 0} {e : Env} {m : M A} {r : Resource} {a : ℕ} {b : A → ℕ}
    (Q : FftwConstants → A → Type 0)
    → Spends (λ _. Unit {0}) r a m b
    → ((w : World) → At w m (Q w.env.fftw))
    → Ensures e m (Q e.fftw)
kept_at Q s y = record {
  run = λ w w' v h o.
      (subst (λ (x : Env). Q x.fftw v) h ((y w).run w' v o), (s.run w w' v tt o).1 ∙ h);
}

pub implied :
    {A : Type 0} {e : Env} {m : M A} {P Q : A → Type 0}
    → Ensures e m P
    → ((v : A) → P v → Q v)
    → Ensures e m Q
implied p f = record { run = λ w w' v h o. let (x, i) = p.run w w' v h o in (f v x, i) }
