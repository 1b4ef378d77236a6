-- ===== src/Error/Ensures.antt =====
-- A function that reports an error and returns NULL, in the calculus for results.
use underling.Common.{ℕ, String, Option, none}
use underling.Machine.{Env}
use underling.Machine.Yields.{returns, bind}
use underling.Machine.Ensures.{Ensures, kept, any_resource}
use underling.Error.Defs.{Status, error_null, error_val, mpichkn}
use underling.Error.Laws.{error_val-Spends, mpichkn-Spends}

module _ {e : Env} {A : Type 0} {Q : Option A → Type 0} (q : Q none) where
  pub refuses : (reason : String) (code : Status) → Ensures e (error_null reason code) Q
  unfolding error_null error_val
  refuses reason code =
      kept (error_val-Spends any_resource reason code none (λ _. 0)) (bind _ λ _. returns none q)

  pub gives_up : (status : ℕ) → Ensures e (mpichkn status) Q
  unfolding mpichkn
  gives_up status = kept (mpichkn-Spends any_resource status (λ _. 0)) (bind _ λ _. returns none q)
