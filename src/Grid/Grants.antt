-- ===== src/Grid/Grants.antt =====
-- What a grid holds that is created, whatever the calls answer and leave behind where they fail.
use underling.Common.{ℕ, ◌≡◌, refl, ℤ, String, none, some, arith}
use underling.Machine.Count.{Resource, gains, losses, hit_null, comm}
use underling.Machine.Spends.{pure_, assert_, invoke_}
use underling.Machine.Yields.{Yields, returns, bind, halts}
use underling.Machine.Grants.{Grants, refused, granted, even, then_, fork_, screen_, query, grant}
use underling.Error.{Status, error_null, error_val, mpichkn}
use underling.Grid.Defs.{Grid}
use underling.Grid.Create.{
  fail, fail_mpi, name_comms, split_p_b, split_p_a, make_topology, decompose, initial, create,
}
use underling.Grid.Accounts.{owned, owned?}

no_grid : (g : Grid) (s : ℕ) → Yields (fail_mpi g s) (λ v. v ≡ none)
unfolding fail_mpi mpichkn
no_grid g s = bind _ λ _. bind _ λ _. returns none refl

no_grid_at : (g : Grid) (reason : String) (e : Status) → Yields (fail g reason e) (λ v. v ≡ none)
unfolding fail error_null error_val
no_grid_at g reason e = bind _ λ _. bind _ λ _. returns none refl

refuse : (reason : String) (e : Status) → Yields (error_null {A = Grid} reason e) (λ v. v ≡ none)
unfolding error_null error_val
refuse reason e = bind _ λ _. returns none refl

module _ (r : Resource) where
  name_comms-Grants : (g : Grid) (i j : ℕ) → Grants r (owned r g) (name_comms g i j) (owned r)
  unfolding name_comms gains losses
  name_comms-Grants g i j = then_ (invoke_ _ refl) λ a. then_ (invoke_ _ refl) λ b.
      then_ (assert_ _) λ _. then_ (assert_ _) λ _. even (omega arith) (
        query _ refl (λ s o. refl) (λ s. no_grid _ _)
          λ _.
            query _ refl (λ s o. refl) (λ s. no_grid _ _)
              λ _.
                query _ refl (λ s o. refl) (λ s. no_grid _ _)
                  λ _. granted {c = owned? r} (pure_ (some g) refl) (λ v. refl))

  split_p_b-Grants :
      (g : Grid) (i : ℕ) → g.p_b_comm ≡ 0 → Grants r (owned r g) (split_p_b g i) (owned r)
  unfolding split_p_b gains losses
  split_p_b-Grants g i e =
      grant _ refl (λ s o. refl) (λ s. no_grid _ _)
        λ s.
          even (rw e (omega (arith, hit_null r comm)))
            (query _ refl (λ s o. refl) (λ k. no_grid _ _) (λ k. name_comms-Grants _ i (k.out 0)))

  split_p_a-Grants :
      (g : Grid) → g.p_a_comm ≡ 0 → g.p_b_comm ≡ 0 → Grants r (owned r g) (split_p_a g) (owned r)
  unfolding split_p_a gains losses
  split_p_a-Grants g e e' =
      grant _ refl (λ s o. refl) (λ s. no_grid _ _)
        λ s.
          even (rw e (omega (arith, hit_null r comm)))
            (query _ refl (λ s o. refl) (λ k. no_grid _ _) (λ k. split_p_b-Grants _ (k.out 0) e'))

  make_topology-Grants :
      (g : Grid) (c : ℕ)
      → g.g_comm ≡ 0
      → g.p_a_comm ≡ 0
      → g.p_b_comm ≡ 0
      → Grants r (owned r g) (make_topology g c) (owned r)
  unfolding make_topology gains losses
  make_topology-Grants g c e e' e'' =
      grant _ refl (λ s o. refl) (λ s. no_grid _ _)
        λ s. even (rw e (omega (arith, hit_null r comm))) (split_p_a-Grants _ e' e'')

  decompose-Grants :
      (g : Grid) (c : ℕ)
      → g.g_comm ≡ 0
      → g.p_a_comm ≡ 0
      → g.p_b_comm ≡ 0
      → Grants r (owned r g) (decompose g c) (owned r)
  unfolding decompose gains losses
  decompose-Grants g c e e' e'' =
      query _ refl (λ s o. refl) (λ s. no_grid g _)
        λ s.
          query _ refl (λ s o. refl) (λ k. no_grid g _)
            λ k.
              fork_ _ (λ _. refused (halts _))
                λ _.
                  screen_ _ (λ reason. refused (no_grid_at _ reason _))
                    (make_topology-Grants _ c e e' e'')

  pub create-Grants :
      (c : ℕ) (n0 n1 n2 p_a p_b : ℤ) → Grants r 0 (create c n0 n1 n2 p_a p_b) (owned r)
  unfolding create gains losses initial
  create-Grants c n0 n1 n2 p_a p_b =
      screen_ _ (λ reason. refused (refuse reason _))
        (then_ (invoke_ _ refl) λ s.
          fork_ _ (λ _. refused (refuse _ _))
            λ _. even (omega (arith, hit_null r comm)) (decompose-Grants _ c refl refl refl))
