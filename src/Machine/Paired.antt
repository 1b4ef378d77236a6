-- ===== src/Machine/Paired.antt =====
-- A command that takes a resource and one that gives it back.
use underling.Common.{ℕ, ◌≡◌, arith}
use underling.Machine.Run.{Env, M, World, ok}
use underling.Machine.Count.{Resource, Accounts}
use underling.Machine.Spends.{Spends}

pub paired :
    {A B : Type 0} (E : Env → Type 0) {r : Resource} {m : M A} {b : A → ℕ} {k : M B} {v : A} {u : B}
    {w w1 w2 : World}
    → Spends E r 0 m b
    → Spends E r (b v) k (λ _. 0)
    → E w.env
    → E w1.env
    → m w ≡ ok v w1
    → k w1 ≡ ok u w2
    → Accounts r w w1 0 (b v) × Accounts r w1 w2 (b v) 0 × Accounts r w w2 0 0
paired E {v} {u} {w} {w1} {w2} p q e e1 h h' =
    let i = (p.run w w1 v e h).0 in let j = (q.run w1 w2 u e1 h').0 in (i, j, omega (arith, i, j))
