-- ===== src/Error/Returns.antt =====
-- Reporting an error comes back under an error handler that returns.
use underling.Common.{ℕ, ◌≡◌, refl, ◌≢◌, ◌∷◌, String}
use underling.Machine.{
  Env, World, ok, default_handler, no_error_handler, custom_handler, ErrorHandler, stepping,
  user_error_handler, event,
}
use underling.Machine.Comes.{Comes, Returning, gives, calls, then_, either}
use underling.Error.Defs.{Status, code, report_to, error, error_val, mpichkr, reporting}

module _ (E : Env → Type 0) where
  report_to-returns :
      (h : ErrorHandler) (reason : String) (s : Status) (w : World)
      → h ≢ default_handler
      → Returning w
      → E w.env
      → (v : Unit {0}) × (w' : World) × (report_to h reason s w ≡ ok v w') × Returning w' × E w'.env
  unfolding reporting
  report_to-returns default_handler reason s w d n e = absurd (d refl)
  report_to-returns no_error_handler reason s w d n e = (tt, w, refl, n, e)
  report_to-returns (custom_handler k) reason s w d n e =
      let c = user_error_handler k reason (code s) in
      let e0 = n.returns w.trace k reason (code s) in
      let w1 : World = record w { trace = event c 0 (w.env.out w.trace c 0) ∷ w.trace } in
      let r : report_to (custom_handler k) reason s w ≡ ok tt w1 = rw e0 refl in
      (tt, w1, r, record { set = n.set; returns = n.returns }, e)

module _ {E : Env → Type 0} where
  pub error-Comes : (reason : String) (s : Status) → Comes E (error reason s)
  unfolding error stepping
  error-Comes reason s = record {
    run = λ w n e. report_to-returns E w.error_handler reason s w n.set n e;
  }

  pub error_val-Comes :
      {A : Type 0} (reason : String) (s : Status) (v : A) → Comes E (error_val reason s v)
  unfolding error_val
  error_val-Comes reason s v = then_ (error-Comes reason s) λ _. gives v

  pub mpichkr-Comes : (s : ℕ) → Comes E (mpichkr s)
  unfolding mpichkr
  mpichkr-Comes s = either _ (gives tt) (then_ (calls _) λ _. error-Comes _ _)
