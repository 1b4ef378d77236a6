-- ===== src/Machine/Leaves.antt =====
-- A calculus for the broadcasts of a run in one environment, and for traces that only go on.
use mathlib.Core.Path.{subst}
use underling.Common.{ℕ, ◌≡◌, sym, Bool, true, false, Option, none, some, String}
use underling.Machine.Run.{
  M, Env, World, ok, halt, Stop, Call, Trace, Reply, FftwConstants, invoke, gets, assert, ◌>>=◌,
  when◌then◌else◌, checked, bcast,
}
use underling.Machine.Count.{Resource}
use underling.Machine.Spends.{Spends}
use underling.Machine.Ensures.{Ensures}
use underling.Machine.Sent.{GoesOn, Among, sent, goes_on_trans, goes_on_event, sent-bcast}

pub record Goes {A : Type 0} (m : M A) : Type 0 where
  pub run : (w w' : World) (v : A) → m w ≡ ok v w' → GoesOn w.trace w'.trace

pub goes :
    {A : Type 0} {m : M A} {r : Resource} {a : ℕ} {b : A → ℕ}
    → Spends (λ _. Unit {0}) r a m b
    → Goes m
goes s = record { run = λ w w' v h. (s.run w w' v tt h).2 }

pub asked :
    {A : Type 0} {k : Reply → M A} (c : Call) → ((s : Reply) → Goes (k s)) → Goes (invoke c >>= k)
unfolding ◌>>=◌ invoke
asked c q = record {
  run = λ w w' v h.
      goes_on_trans (goes_on_event c (w.env.status w.trace c) (w.env.out w.trace c 0) w.trace)
        ((q _).run _ w' v h);
}

pub forked : {A : Type 0} {m n : M A} (t : Bool) → Goes m → Goes n → Goes (when t then m else n)
unfolding when◌then◌else◌
forked true p q = p
forked false p q = q

-- What holds of the result and of the trace, if the command comes back.
pub record Leaves {A : Type 0} (e : Env) (m : M A) (Q : A → Trace → Type 0) : Type 0 where
  pub run : (w w' : World) (v : A) → w.env ≡ e → m w ≡ ok v w' → Q v w'.trace

module _ {e : Env} {A : Type 0} {Q : A → Trace → Type 0} where
  pub ensured :
      {m : M A} {P : A → Type 0}
      → Ensures e m P
      → ((v : A) (t : Trace) → P v → Q v t)
      → Leaves e m Q
  ensured p f = record { run = λ w w' v h o. f v w'.trace (p.run w w' v h o).0 }

  pub stops_ : (s : Stop) → Leaves e (halt s) Q
  stops_ s = record { run = λ w w' u h o. absurd (cc) }

  pub asks_ :
      {k : Reply → M A} (c : Call) (P : Reply → Type 0)
      → ((t : Trace) → P (record { status = e.status t c; out = e.out t c }))
      → ((s : Reply) → P s → Leaves e (k s) Q)
      → Leaves e (invoke c >>= k) Q
  unfolding ◌>>=◌ invoke
  asks_ {k} c P p q = record {
    run = λ w w' v h o.
        (q (record { status = w.env.status w.trace c; out = w.env.out w.trace c })
            (subst (λ (x : Env). P (record { status = x.status w.trace c; out = x.out w.trace c }))
              (sym h) (p w.trace))).run
          _ w' v h o;
  }

  pub reads_ :
      (k : FftwConstants → M A) → Leaves e (k e.fftw) Q → Leaves e (gets (λ w. w.env.fftw) >>= k) Q
  unfolding ◌>>=◌
  reads_ k q = record {
    run = λ w w' v h o. q.run w w' v h (subst (λ (x : Env). k x.fftw w ≡ ok v w') h o);
  }

  pub tests_ : (b : Bool) (k : Unit {0} → M A) → Leaves e (k tt) Q → Leaves e (assert b >>= k) Q
  unfolding ◌>>=◌
  tests_ true k q = record { run = λ w w' v h o. q.run w w' v h o }
  tests_ false k q = record { run = λ w w' v h o. absurd (cc) }

  pub forks_ :
      {m n : M A} (t : Bool) → Leaves e m Q → Leaves e n Q → Leaves e (when t then m else n) Q
  unfolding when◌then◌else◌
  forks_ true p q = p
  forks_ false p q = q

  pub screens_ :
      {bad : String → M A} {go : M A} (o : Option String)
      → ((reason : String) → Leaves e (bad reason) Q)
      → Leaves e go Q
      → Leaves e (checked o bad go) Q
  unfolding checked
  screens_ none p q = q
  screens_ (some reason) p q = p reason

  -- A broadcast stays in the trace of what comes behind it.
  pub sends :
      {k : Reply → M A} (x y comm : ℕ)
      → ((s : Reply) → Goes (k s))
      → ((s : Reply) → Leaves e (k s) (λ v t. Among (x, y) (sent comm t) → Q v t))
      → Leaves e (invoke (bcast x y comm) >>= k) Q
  unfolding ◌>>=◌ invoke
  sends {k} x y comm g q = record {
    run = λ w w' v h o.
        let s : Reply = record {
          status = w.env.status w.trace (bcast x y comm);
          out = w.env.out w.trace (bcast x y comm);
        } in
        (q s).run _ w' v h o
          (((g s).run _ w' v o).keeps comm (x, y) (sent-bcast x y comm _ _ w.trace));
  }
