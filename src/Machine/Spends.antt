-- ===== src/Machine/Spends.antt =====
-- A calculus for the holdings of a run: each command is given the resource `a` times and hands it
-- on as often as its result says, or it does not come back. `E` is what is assumed of the
-- environment, which no command changes.
use mathlib.Core.Path.{subst}
use underling.Common.{
  ℕ, ◌+◌, ◌≡◌, refl, sym, ◌≢◌, ◌∙◌, not, ◌==◌, ==_iff, Bool, true, false, Option, none, some,
  String, ◌∷◌, arith,
}
use underling.Machine.Run.{
  M, Env, World, Run, ok, stop, Stop, pure, halt, gets, and_then, ◌>>=◌, Call, Trace, malloc, Reply,
  event, first_out, invoke, perform, assert, when◌then◌else◌, checked,
}
use underling.Machine.Sent.{GoesOn, goes_on_refl, goes_on_trans, goes_on_event}
use underling.Machine.Count.{
  Resource, Accounts, gains, losses, gained, lost, hit, hit_null, block, comm, comm_out,
}

pub record Spends {A : Type 0} (E : Env → Type 0) (r : Resource) (a : ℕ) (m : M A) (b : A → ℕ)
    : Type 0 where
  pub run :
      (w w' : World) (v : A)
      → E w.env
      → m w ≡ ok v w'
      → Accounts r w w' a (b v) × (w'.env ≡ w.env) × GoesOn w.trace w'.trace

module _ {A B : Type 0} where
  pub and_then-ok :
      (x : Run A) (f : A → M B) (v : B) (w' : World)
      → and_then x f ≡ ok v w'
      → (u : A) × (w1 : World) × (x ≡ ok u w1) × (f u w1 ≡ ok v w')
  and_then-ok (ok u w1) f v w' h = (u, w1, refl, h)
  and_then-ok (stop s w1) f v w' h = cc

stays :
    {A : Type 0} (r : Resource) {x : ℕ} (b : A → ℕ) (v : A)
    → x ≡ b v
    → (w w' : World) (u : A) → ok v w ≡ ok u w'
    → Accounts r w w' x (b u) × (w'.env ≡ w.env) × GoesOn w.trace w'.trace
stays r b v e w w' u h =
    let world : w ≡ w' = cc in
    let value : v ≡ u = cc in
    (
      rw (← world, ← value, e) refl,
      cc,
      subst (λ (x : World). GoesOn w.trace x.trace) world (goes_on_refl w.trace),
    )

module _ {E : Env → Type 0} {r : Resource} where
  pub pure_ : {A : Type 0} {b : A → ℕ} {x : ℕ} (v : A) → x ≡ b v → Spends E r x (pure v) b
  pure_ {b} v e = record { run = λ w w' u p h. stays r b v e w w' u h }

  pub halt_ : {A : Type 0} {b : A → ℕ} {x : ℕ} (s : Stop) → Spends E r x (halt s) b
  halt_ s = record { run = λ w w' u p h. absurd (cc) }

  pub gets_ : {A : Type 0} {x : ℕ} (f : World → A) → Spends E r x (gets f) (λ _. x)
  gets_ {x} f = record { run = λ w w' v p h. stays r (λ _. x) (f w) refl w w' v h }

  -- In sequence: the second command gets what the first one hands on, and what it did not touch.
  pub seq :
      {A B : Type 0} {m : M A} {k : A → M B} {b : A → ℕ} {c : B → ℕ} {x a : ℕ} (f : ℕ)
      → x ≡ a + f
      → Spends E r a m b
      → ((v : A) → Spends E r (b v + f) (k v) c)
      → Spends E r x (m >>= k) c
  unfolding ◌>>=◌
  seq {m} {k} {b} f e p q = record {
    run = λ w w' v ew h.
        let (u, w1, h1, h2) = and_then-ok (m w) k v w' h in
        let i1 = p.run w w1 u ew h1 in
        let i2 = (q u).run w1 w' v (subst E (sym i1.1) ew) h2 in
        (omega (arith, i1.0, i2.0), i2.1 ∙ i1.1, goes_on_trans i1.2 i2.2);
  }

  pub same :
      {A : Type 0} {m : M A} {b : A → ℕ} {x y : ℕ} → x ≡ y → Spends E r y m b → Spends E r x m b
  same e p = record {
    run = λ w w' v ew h. let i = p.run w w' v ew h in (omega (arith, i.0), i.1, i.2);
  }

  pub branch :
      {A : Type 0} {t : Bool} {m n : M A} {b : A → ℕ} {x : ℕ}
      → (t ≡ true → Spends E r x m b)
      → (t ≡ false → Spends E r x n b)
      → Spends E r x (when t then m else n) b
  unfolding when◌then◌else◌
  branch {t = true} p q = p refl
  branch {t = false} p q = q refl

  pub checked_ :
      {A : Type 0} {o : Option String} {bad : String → M A} {go : M A} {b : A → ℕ} {x : ℕ}
      → ((reason : String) → Spends E r x (bad reason) b)
      → (o ≡ none → Spends E r x go b)
      → Spends E r x (checked o bad go) b
  unfolding checked
  checked_ {o = none} p q = q refl
  checked_ {o = some reason} p q = p reason

  pub invoke_ :
      {x : ℕ} (c : Call)
      → x ≡ losses r c
      → Spends E r x (invoke c) (λ s. gains r c s.status (s.out 0))
  unfolding invoke gained lost
  invoke_ c e = record {
    run = λ w w' v p h.
        let (accounts, env) : Accounts r w w' _ _ × (w'.env ≡ w.env) = ground arith in
        let on = goes_on_event c (w.env.status w.trace c) (w.env.out w.trace c 0) w.trace in
        (accounts, env, subst (GoesOn w.trace) (cc) on);
  }

  -- A call that hands out nothing.
  pub spend :
      {x : ℕ} (c : Call)
      → x ≡ losses r c
      → ((s o : ℕ) → gains r c s o ≡ 0)
      → Spends E r x (perform c) (λ _. 0)
  unfolding perform
  spend c e g =
      seq 0 (omega arith) (invoke_ c e) (λ s. pure_ tt (omega (arith, g s.status (s.out 0))))

  pub assert_ : {x : ℕ} (b : Bool) → Spends E r x (assert b) (λ _. x)
  assert_ true = pure_ tt refl
  assert_ false = halt_ _

  -- A step that leaves the holdings alone.
  pub aside :
      {A B : Type 0} {m : M A} {k : A → M B} {c : B → ℕ} {x : ℕ}
      → Spends E r 0 m (λ _. 0)
      → ((v : A) → Spends E r x (k v) c)
      → Spends E r x (m >>= k) c
  aside {x} p q = seq x (omega arith) p (λ v. same (omega arith) (q v))

  pub pass :
      {B : Type 0} {k : Reply → M B} {b : B → ℕ} {x : ℕ} (c : Call)
      → losses r c ≡ 0
      → ((s o : ℕ) → gains r c s o ≡ 0)
      → ((s : Reply) → Spends E r x (k s) b)
      → Spends E r x (invoke c >>= k) b
  pass {x} c e g q =
      seq x (omega arith) (invoke_ c refl) (λ s. same (omega (arith, g s.status (s.out 0))) (q s))

  -- A block is handed out, or the run takes the way out.
  pub allocate :
      {A : Type 0} {bad : M A} {go : Reply → M A} {b : A → ℕ} {x : ℕ} (name : String)
      → Spends E r x bad b
      → ((s : Reply) → Spends E r (x + hit r block (s.out 0)) (go s) b)
      → Spends E r x (invoke (malloc name) >>= λ s. when s.out 0 == 0 then bad else go s) b
  unfolding gains losses
  allocate {x} name p q = seq x (omega arith) (invoke_ _ refl) λ s.
      branch (λ e. same (rw ((==_iff (s.out 0) 0).0 e) (omega (arith, hit_null r block))) p)
        (λ _. same (omega arith) (q s))

  -- A call that hands out nothing, whose status is tested before the run goes on.
  pub ask :
      {A : Type 0} {bad go : Reply → M A} {b : A → ℕ} {x : ℕ} (c : Call)
      → losses r c ≡ 0
      → ((s o : ℕ) → gains r c s o ≡ 0)
      → ((s : Reply) → Spends E r x (bad s) b)
      → ((s : Reply) → Spends E r x (go s) b)
      → Spends E r x (invoke c >>= λ s. when not (s.status == 0) then bad s else go s) b
  ask {x} c e g p q =
      seq x (omega arith) (invoke_ c refl)
        λ s. same (omega (arith, g s.status (s.out 0))) (branch (λ _. p s) (λ _. q s))

-- A handle that stays NULL if its call fails is held exactly if the call handed it out.
hit-first_out : (r : Resource) (s o : ℕ) → hit r comm (first_out s o) ≡ comm_out r s o
hit-first_out r s o = ground (arith, hit_null r comm)

module _ {E : Env → Type 0} {r : Resource} where
  -- The same of a call that hands out a communicator, and that leaves NULL behind where it fails.
  pub acquire :
      {A : Type 0} {bad go : Reply → M A} {b : A → ℕ} {x : ℕ} (c : Call)
      → losses r c ≡ 0
      → ((s o : ℕ) → gains r c s o ≡ comm_out r s o)
      → ((env : Env) (t : Trace) → E env → env.status t c ≢ 0 → env.out t c 0 ≡ 0)
      → ((s : Reply) → Spends E r (x + hit r comm (s.out 0)) (bad s) b)
      → ((s : Reply) → Spends E r (x + hit r comm (s.out 0)) (go s) b)
      → Spends E r x (invoke c >>= λ s. when not (s.status == 0) then bad s else go s) b
  unfolding invoke
  acquire {x} c e g null p q =
      seq x (omega arith) handed λ s. same (omega arith) (branch (λ _. p s) (λ _. q s))
    where
      answered :
          (w w' : World) (v : Reply) → invoke c w ≡ ok v w' → v.status ≡ w.env.status w.trace c
      answered w w' v h = cc

      answered_out :
          (w w' : World) (v : Reply) → invoke c w ≡ ok v w' → v.out 0 ≡ w.env.out w.trace c 0
      answered_out w w' v h = cc

      handed : Spends E r 0 (invoke c) (λ s. hit r comm (s.out 0))
      handed = record {
        run = λ w w' v ew h.
            let (accounts, env, on) = (invoke_ {E = E} {r = r} {x = 0} c (sym e)).run w w' v ew h in
            let z = null w.env w.trace ew in
            let status : v.status ≡ w.env.status w.trace c = answered w w' v h in
            let out : v.out 0 ≡ w.env.out w.trace c 0 = answered_out w w' v h in
            (
              ground (arith, accounts, z, g v.status (v.out 0), status, out, hit_null r comm),
              env,
              on,
            );
      }

  -- The same where the way out on failure knows nothing of the output.
  pub obtain :
      {A : Type 0} {bad go : Reply → M A} {b : A → ℕ} {x : ℕ} (c : Call)
      → losses r c ≡ 0
      → ((s o : ℕ) → gains r c s o ≡ comm_out r s o)
      → ((s : Reply) → Spends E r x (bad s) b)
      → ((s : Reply) → Spends E r (x + hit r comm (first_out s.status (s.out 0))) (go s) b)
      → Spends E r x (invoke c >>= λ s. when not (s.status == 0) then bad s else go s) b
  obtain {x} c e g p q = seq x (omega arith) (invoke_ c refl) λ s.
      branch (λ f. same (ground (arith, g s.status (s.out 0))) (p s))
        (λ _. same (omega (arith, g s.status (s.out 0), hit-first_out r s.status (s.out 0))) (q s))

  -- A call that is assumed to succeed.
  pub trust :
      {A : Type 0} {go : Reply → M A} {b : A → ℕ} {x : ℕ} (c : Call) (bad : Reply → M A)
      → losses r c ≡ 0
      → ((s o : ℕ) → gains r c s o ≡ 0)
      → ((env : Env) (t : Trace) → E env → env.status t c ≡ 0)
      → ((s : Reply) → Spends E r x (go s) b)
      → Spends E r x (invoke c >>= λ s. when not (s.status == 0) then bad s else go s) b
  unfolding ◌>>=◌ when◌then◌else◌ invoke gained lost
  trust c bad e g t q = record {
    run = λ w w' v ew h.
        let z = t w.env w.trace ew in
        let s : Reply = record { status = 0; out = w.env.out w.trace c } in
        let w1 = record w { trace = event c 0 (w.env.out w.trace c 0) ∷ w.trace } in
        let i = (q s).run w1 w' v ew (rw z at h) in
        (
          omega (arith, i.0, e, g 0 (w.env.out w.trace c 0)),
          i.1,
          goes_on_trans (goes_on_event c 0 (w.env.out w.trace c 0) w.trace) i.2,
        );
  }
