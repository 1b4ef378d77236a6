-- ===== src/Machine/At.antt =====
-- The calculus for results at one world, where a call's answer is the environment's.
use underling.Common.{◌≡◌, refl, Bool, true, false, Option, none, some, String, ◌∷◌}
use underling.Machine.Run.{
  M, World, ok, Call, Reply, event, invoke, gets, ◌>>=◌, when◌then◌else◌, checked,
}
use underling.Machine.Yields.{Yields}

-- The world after a call, and the answer.
abbrev pub after_call : Call → World → World
after_call c w = record w {
  trace = event c (w.env.status w.trace c) (w.env.out w.trace c 0) ∷ w.trace;
}

abbrev pub answer : Call → World → Reply
answer c w = record { status = w.env.status w.trace c; out = w.env.out w.trace c }

pub record At {A : Type 0} (w : World) (m : M A) (Q : A → Type 0) : Type 0 where
  pub run : (w' : World) (v : A) → m w ≡ ok v w' → Q v

module _ {w : World} {A : Type 0} where
  pub anywhere : {m : M A} {Q : A → Type 0} → Yields m Q → At w m Q
  anywhere q = record { run = λ w' v h. q.run w w' v h }

  pub step :
      {Q : A → Type 0} (c : Call) (k : Reply → M A)
      → At (after_call c w) (k (answer c w)) Q
      → At w (invoke c >>= k) Q
  unfolding ◌>>=◌ invoke
  step c k q = record { run = λ w' v h. q.run w' v h }

  pub look :
      {B : Type 0} {Q : A → Type 0} (f : World → B) (k : B → M A)
      → At w (k (f w)) Q
      → At w (gets f >>= k) Q
  unfolding ◌>>=◌
  look f k q = record { run = λ w' v h. q.run w' v h }

  pub fork :
      {t : Bool} {m n : M A} {Q : A → Type 0}
      → (t ≡ true → At w m Q)
      → (t ≡ false → At w n Q)
      → At w (when t then m else n) Q
  unfolding when◌then◌else◌
  fork {t = true} p q = p refl
  fork {t = false} p q = q refl

  pub screened :
      {o : Option String} {bad : String → M A} {go : M A} {Q : A → Type 0}
      → ((reason : String) → At w (bad reason) Q)
      → (o ≡ none → At w go Q)
      → At w (checked o bad go) Q
  unfolding checked
  screened {o = none} p q = q refl
  screened {o = some reason} p q = p reason

-- A consequence, in place of the predicate.
pub weaken :
    {A : Type 0} {m : M A} {P Q : A → Type 0} → Yields m P → ((v : A) → P v → Q v) → Yields m Q
weaken p f = record { run = λ w w' v h. f v (p.run w w' v h) }
