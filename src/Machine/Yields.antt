-- ===== src/Machine/Yields.antt =====
-- A calculus for results: whatever a command returns, if it comes back, satisfies a predicate.
use mathlib.Core.Path.{subst}
use underling.Common.{◌≡◌, refl, Bool, true, false, Option, none, some, String}
use underling.Machine.Run.{M, World, ok, halt, Stop, pure, ◌>>=◌, when◌then◌else◌, checked}
use underling.Machine.Spends.{and_then-ok}

pub record Yields {A : Type 0} (m : M A) (Q : A → Type 0) : Type 0 where
  pub run : (w w' : World) (v : A) → m w ≡ ok v w' → Q v

pub ok-injective : {A : Type 0} {u v : A} {w w' : World} → ok u w ≡ ok v w' → u ≡ v
ok-injective h = cc

pub returns : {A : Type 0} {Q : A → Type 0} (v : A) → Q v → Yields (pure v) Q
returns {Q} v q = record { run = λ w w' u h. subst Q (ok-injective h) q }

pub halts : {A : Type 0} {Q : A → Type 0} (s : Stop) → Yields (halt s) Q
halts s = record { run = λ w w' u h. absurd (cc) }

pub anything : {A : Type 0} {m : M A} → Yields m (λ _. Unit {0})
anything = record { run = λ w w' u h. tt }

pub bind :
    {A B : Type 0} {k : A → M B} {Q : B → Type 0} (m : M A)
    → ((v : A) → Yields (k v) Q)
    → Yields (m >>= k) Q
unfolding ◌>>=◌
bind {k} m q = record {
  run = λ w w' v h. let (u, w1, h1, h2) = and_then-ok (m w) k v w' h in (q u).run w1 w' v h2;
}

-- The second command may use what the first one yields.
pub after :
    {A B : Type 0} {m : M A} {k : A → M B} {P : A → Type 0} {Q : B → Type 0}
    → Yields m P
    → ((v : A) → P v → Yields (k v) Q)
    → Yields (m >>= k) Q
unfolding ◌>>=◌
after {m} {k} p q = record {
  run = λ w w' v h.
      let (u, w1, h1, h2) = and_then-ok (m w) k v w' h in (q u (p.run w w1 u h1)).run w1 w' v h2;
}

pub cases :
    {A : Type 0} {t : Bool} {m n : M A} {Q : A → Type 0}
    → (t ≡ true → Yields m Q)
    → (t ≡ false → Yields n Q)
    → Yields (when t then m else n) Q
unfolding when◌then◌else◌
cases {t = true} p q = p refl
cases {t = false} p q = q refl

pub passes :
    {A : Type 0} {o : Option String} {bad : String → M A} {go : M A} {Q : A → Type 0}
    → ((reason : String) → Yields (bad reason) Q)
    → (o ≡ none → Yields go Q)
    → Yields (checked o bad go) Q
unfolding checked
passes {o = none} p q = q refl
passes {o = some reason} p q = p reason

pub both :
    {A : Type 0} {m : M A} {P Q : A → Type 0} → Yields m P → Yields m Q → Yields m (λ v. P v × Q v)
both p q = record { run = λ w w' v h. (p.run w w' v h, q.run w w' v h) }
