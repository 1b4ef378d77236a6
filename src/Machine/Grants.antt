-- ===== src/Machine/Grants.antt =====
-- A calculus for the holdings of a run that comes to something: of a run that comes to NULL nothing is said.
use mathlib.Core.Path.{subst}
use underling.Common.{
  ℕ, ◌+◌, ◌≡◌, refl, sym, ◌∙◌, not, ◌==◌, Bool, true, false, Option, none, some, is_some, String,
  arith,
}
use underling.Machine.Run.{
  M, Env, World, ok, Call, Reply, invoke, assert, ◌>>=◌, when◌then◌else◌, checked,
}
use underling.Machine.Count.{Resource, Accounts, gains, losses, hit, comm, comm_out}
use underling.Machine.Sent.{GoesOn, goes_on_trans}
use underling.Machine.Spends.{Spends, and_then-ok, invoke_}
use underling.Machine.Yields.{Yields}

pub record Grants {A : Type 0} (r : Resource) (a : ℕ) (m : M (Option A)) (b : A → ℕ) : Type 0 where
  pub run :
      (w w' : World) (v : A)
      → m w ≡ ok (some v) w'
      → Accounts r w w' a (b v) × (w'.env ≡ w.env) × GoesOn w.trace w'.trace

module _ {A : Type 0} {r : Resource} {b : A → ℕ} where
  pub refused : {x : ℕ} {m : M (Option A)} → Yields m (λ v. v ≡ none) → Grants r x m b
  refused y = record { run = λ w w' v h. let n = y.run w w' (some v) h in absurd (cc) }

  pub granted :
      {x : ℕ} {m : M (Option A)} {c : Option A → ℕ}
      → Spends (λ _. Unit {0}) r x m c
      → ((v : A) → c (some v) ≡ b v)
      → Grants r x m b
  granted s e = record {
    run = λ w w' v h. let (i, j, k) = s.run w w' (some v) tt h in (omega (arith, i, e v), j, k);
  }

  pub even : {x y : ℕ} {m : M (Option A)} → x ≡ y → Grants r y m b → Grants r x m b
  even e p = record { run = λ w w' v h. let (i, j, k) = p.run w w' v h in (omega (arith, i), j, k) }

  pub then_ :
      {B : Type 0} {m : M B} {k : B → M (Option A)} {c : B → ℕ} {x : ℕ}
      → Spends (λ _. Unit {0}) r 0 m c
      → ((u : B) → Grants r (x + c u) (k u) b)
      → Grants r x (m >>= k) b
  unfolding ◌>>=◌
  then_ {m} {k} p q = record {
    run = λ w w' v h.
        let (u, w1, h1, h2) = and_then-ok (m w) k (some v) w' h in
        let (i, j, l) = p.run w w1 u tt h1 in
        let (i', j', l') = (q u).run w1 w' v h2 in
        (omega (arith, i, i'), j' ∙ j, goes_on_trans l l');
  }

  pub fork_ :
      {m n : M (Option A)} {x : ℕ} (t : Bool)
      → (t ≡ true → Grants r x m b)
      → (t ≡ false → Grants r x n b)
      → Grants r x (when t then m else n) b
  unfolding when◌then◌else◌
  fork_ true p q = p refl
  fork_ false p q = q refl

  pub screen_ :
      {bad : String → M (Option A)} {go : M (Option A)} {x : ℕ} (o : Option String)
      → ((reason : String) → Grants r x (bad reason) b)
      → Grants r x go b
      → Grants r x (checked o bad go) b
  unfolding checked
  screen_ none p q = q
  screen_ (some reason) p q = p reason

  -- A call that hands out nothing, whose failure is refused.
  pub query :
      {bad go : Reply → M (Option A)} {x : ℕ} (c : Call)
      → losses r c ≡ 0
      → ((s o : ℕ) → gains r c s o ≡ 0)
      → ((s : Reply) → Yields (bad s) (λ v. v ≡ none))
      → ((s : Reply) → Grants r x (go s) b)
      → Grants r x (invoke c >>= λ s. when not (s.status == 0) then bad s else go s) b
  query c e g p q =
      then_ (invoke_ c (sym e))
        λ s. even (omega (arith, g s.status (s.out 0))) (fork_ _ (λ _. refused (p s)) λ _. q s)

  -- The same of a call that hands out a communicator.
  pub grant :
      {bad go : Reply → M (Option A)} {x : ℕ} (c : Call)
      → losses r c ≡ 0
      → ((s o : ℕ) → gains r c s o ≡ comm_out r s o)
      → ((s : Reply) → Yields (bad s) (λ v. v ≡ none))
      → ((s : Reply) → Grants r (x + hit r comm (s.out 0)) (go s) b)
      → Grants r x (invoke c >>= λ s. when not (s.status == 0) then bad s else go s) b
  grant c e g p q =
      then_ (invoke_ c (sym e))
        λ s. fork_ _ (λ _. refused (p s)) λ z. even (ground (arith, g s.status (s.out 0), z)) (q s)

-- `assert(v)`: the run goes on only with something.
pub insist :
    {A B : Type 0} {E : Env → Type 0} {r : Resource} {b : A → ℕ} {m : M (Option A)}
    (k : Option A → M B) {c : B → ℕ}
    → Grants r 0 m b
    → ((v : A) → Spends E r (b v) (k (some v)) c)
    → Spends E r 0 (m >>= λ v. assert (is_some v) >>= λ _. k v) c
unfolding ◌>>=◌
insist {A} {B} {E} {r} {b} {m} k {c} p q = record {
  run = λ w w' v e h.
      let (u, w1, h1, h2) = and_then-ok (m w) (λ u. assert (is_some u) >>= λ _. k u) v w' h in
      on u w w1 w' v e h1 h2;
}
  where
    on :
        (u : Option A) (w w1 w' : World) (v : B)
        → E w.env
        → m w ≡ ok u w1
        → (assert (is_some u) >>= λ _. k u) w1 ≡ ok v w'
        → Accounts r w w' 0 (c v) × (w'.env ≡ w.env) × GoesOn w.trace w'.trace
    on none w w1 w' v e h1 h2 = absurd (cc)
    on (some u) w w1 w' v e h1 h2 =
        let (i, j, l) = p.run w w1 u h1 in
        let (i', j', l') = (q u).run w1 w' v (subst E (sym j) e) h2 in
        (omega (arith, i, i'), j' ∙ j, goes_on_trans l l')
