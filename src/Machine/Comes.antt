-- ===== src/Machine/Comes.antt =====
-- A calculus for runs that come back: under an error handler that returns, and where the
-- environment satisfies `E`.
use underling.Common.{ℕ, ◌≡◌, refl, ◌≢◌, Bool, true, false, Option, none, some, String, ◌∷◌}
use underling.Machine.Run.{
  M, Env, World, ok, pure, Call, Trace, Reply, default_handler, user_error_handler, assert, gets,
  ◌>>=◌, when◌then◌else◌, checked, invoke, perform, event,
}

-- What an error is reported to returns: the handlers are off, or the user's function returns always.
pub record Returning (w : World) : Type 0 where
  pub set : w.error_handler ≢ default_handler
  pub returns :
      (t : Trace) (k : ℕ) (reason : String) (code : ℕ)
      → w.env.status t (user_error_handler k reason code) ≡ 0

pub record Comes {A : Type 0} (E : Env → Type 0) (m : M A) : Type 0 where
  pub run :
      (w : World)
      → Returning w
      → E w.env
      → (v : A) × (w' : World) × (m w ≡ ok v w') × Returning w' × E w'.env

module _ {E : Env → Type 0} where
  pub gives : {A : Type 0} (v : A) → Comes E (pure v)
  gives v = record { run = λ w n e. (v, w, refl, n, e) }

  pub looks : {A : Type 0} (f : World → A) → Comes E (gets f)
  looks f = record { run = λ w n e. (f w, w, refl, n, e) }

  pub calls : (c : Call) → Comes E (invoke c)
  unfolding invoke
  calls c = record { run = λ w n e. (_, _, refl, record { set = n.set; returns = n.returns }, e) }

  pub then_ :
      {A B : Type 0} {m : M A} {k : A → M B}
      → Comes E m
      → ((v : A) → Comes E (k v))
      → Comes E (m >>= k)
  unfolding ◌>>=◌
  then_ p q = record {
    run = λ w n e.
        let (v, w1, h, n1, e1) = p.run w n e in
        let (u, w2, h2, n2, e2) = (q v).run w1 n1 e1 in (u, w2, rw h h2, n2, e2);
  }

  pub either :
      {A : Type 0} {m k : M A} (t : Bool) → Comes E m → Comes E k → Comes E (when t then m else k)
  unfolding when◌then◌else◌
  either true p q = p
  either false p q = q

  pub screens :
      {A : Type 0} {bad : String → M A} {go : M A} (o : Option String)
      → ((reason : String) → Comes E (bad reason))
      → Comes E go
      → Comes E (checked o bad go)
  unfolding checked
  screens none p q = q
  screens (some reason) p q = p reason

  pub sure : (b : Bool) → b ≡ true → Comes E (assert b)
  sure true h = gives tt
  sure false h = absurd (cc)

  -- A call of which the environment's assumption says something.
  pub answered :
      {A : Type 0} {k : Reply → M A} (c : Call) (P : Reply → Type 0)
      → ((env : Env) (t : Trace)
          → E env
          → P (record { status = env.status t c; out = env.out t c }))
      → ((s : Reply) → P s → Comes E (k s))
      → Comes E (invoke c >>= k)
  unfolding ◌>>=◌ invoke
  answered c P g q = record {
    run = λ w n e.
        (q _ (g w.env w.trace e)).run
          (record w { trace = event c (w.env.status w.trace c) (w.env.out w.trace c 0) ∷ w.trace })
          (record { set = n.set; returns = n.returns }) e;
  }

  pub performs : (c : Call) → Comes E (perform c)
  unfolding perform
  performs c = then_ (calls c) λ _. gives tt
