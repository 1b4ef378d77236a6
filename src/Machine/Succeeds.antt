-- ===== src/Machine/Succeeds.antt =====
-- A calculus for runs that come back with what they are for: in one environment, which no command
-- changes, a command returns a value of which `Q` holds.
use mathlib.Core.Path.{subst}
use underling.Common.{◌≡◌, refl, sym, Bool, true, false, Option, none, some, String, ◌∷◌}
use underling.Machine.Run.{
  M, Env, World, ok, pure, Call, Trace, Reply, FftwConstants, assert, gets, ◌>>=◌, when◌then◌else◌,
  checked, invoke, perform, event,
}

pub record Succeeds {A : Type 0} (e : Env) (m : M A) (Q : A → Type 0) : Type 0 where
  pub run : (w : World) → w.env ≡ e → (v : A) × (w' : World) × (m w ≡ ok v w') × Q v × (w'.env ≡ e)

module _ {e : Env} where
  pub gives : {A : Type 0} {Q : A → Type 0} (v : A) → Q v → Succeeds e (pure v) Q
  gives v q = record { run = λ w i. (v, w, refl, q, i) }

  pub looks : {A : Type 0} (f : World → A) → Succeeds e (gets f) (λ _. Unit {0})
  looks f = record { run = λ w i. (f w, w, refl, tt, i) }

  pub then_ :
      {A B : Type 0} {m : M A} {k : A → M B} {P : A → Type 0} {Q : B → Type 0}
      → Succeeds e m P
      → ((v : A) → P v → Succeeds e (k v) Q)
      → Succeeds e (m >>= k) Q
  unfolding ◌>>=◌
  then_ p q = record {
    run = λ w i.
        let (v, w1, h, x, i1) = p.run w i in
        let (u, w2, h2, y, i2) = (q v x).run w1 i1 in (u, w2, rw h h2, y, i2);
  }

  -- A call of whose answer something is known.
  pub asks :
      {A : Type 0} {k : Reply → M A} {Q : A → Type 0} (c : Call) (P : Reply → Type 0)
      → ((t : Trace) → P (record { status = e.status t c; out = e.out t c }))
      → ((s : Reply) → P s → Succeeds e (k s) Q)
      → Succeeds e (invoke c >>= k) Q
  unfolding ◌>>=◌ invoke
  asks c P g q = record {
    run = λ w i.
        (q (record { status = w.env.status w.trace c; out = w.env.out w.trace c })
            (subst (λ (x : Env). P (record { status = x.status w.trace c; out = x.out w.trace c }))
              (sym i) (g w.trace))).run
          (record w { trace = event c (w.env.status w.trace c) (w.env.out w.trace c 0) ∷ w.trace })
          i;
  }

  pub performs : (c : Call) → Succeeds e (perform c) (λ _. Unit {0})
  unfolding perform
  performs c = asks c (λ _. Unit {0}) (λ _. tt) λ _ _. gives tt tt

  pub reads :
      {A : Type 0} {Q : A → Type 0} (k : FftwConstants → M A)
      → Succeeds e (k e.fftw) Q
      → Succeeds e (gets (λ w. w.env.fftw) >>= k) Q
  unfolding ◌>>=◌
  reads k q = record {
    run = λ w i.
        let (v, w1, h, x, i1) = q.run w i in
        (v, w1, subst (λ (x : Env). k x.fftw w ≡ ok v w1) (sym i) h, x, i1);
  }

  module _ {A : Type 0} {Q : A → Type 0} where
    pub enters :
        {m : M A} (n : M A) {t : Bool}
        → t ≡ true
        → Succeeds e m Q
        → Succeeds e (when t then m else n) Q
    unfolding when◌then◌else◌
    enters n {t = true} h p = p
    enters n {t = false} h p = absurd (cc)

    pub skips :
        (m : M A) {n : M A} {t : Bool}
        → t ≡ false
        → Succeeds e n Q
        → Succeeds e (when t then m else n) Q
    unfolding when◌then◌else◌
    skips m {t = false} h p = p
    skips m {t = true} h p = absurd (cc)

    pub either :
        {m n : M A} (t : Bool)
        → (t ≡ true → Succeeds e m Q)
        → (t ≡ false → Succeeds e n Q)
        → Succeeds e (when t then m else n) Q
    unfolding when◌then◌else◌
    either true p q = p refl
    either false p q = q refl

    pub passes :
        (bad : String → M A) {go : M A} {o : Option String}
        → o ≡ none
        → Succeeds e go Q
        → Succeeds e (checked o bad go) Q
    unfolding checked
    passes bad {o = none} h p = p
    passes bad {o = some reason} h p = absurd (cc)

    pub sure :
        (k : Unit {0} → M A) {b : Bool}
        → b ≡ true
        → Succeeds e (k tt) Q
        → Succeeds e (assert b >>= k) Q
    unfolding ◌>>=◌
    sure k {b = true} h p = record { run = λ w i. p.run w i }
    sure k {b = false} h p = absurd (cc)
