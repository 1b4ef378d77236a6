-- ===== src/Bench/Main/Sweeps.antt =====
-- The transposes of the main loop on the fields of the benchmark.
use underling.Common.{
  ℕ, zero, suc, ◌+◌, ◌≤◌, ◌<◌, ◌^◌, ◌≡◌, ◌≢◌, refl, sym, ap, ◌∙◌, ◌==◌, not, Bool, true, false,
  String, List, [], ◌∷◌, some, length, arith, Bool-cases, inl, inr,
}
use underling.Machine.{World, ok, ◌>>=◌, mpi_execute_r2r}
use underling.Machine.At.{after_call}
use underling.Error.{success}
use underling.Plan.Defs.{Plan, execute}
use underling.Plan.Execute.{IsComplete, execute-success_iff}
use underling.Bench.Defs.{Details, movement_of, movement, add32, neg32, truth}
use underling.Bench.Movement.{total}
use underling.Bench.Pass.{turn}
use underling.Bench.Buffers.{field_at, sweep}

abbrev pub entry : List ℕ → ℕ → ℕ
entry [] i = 0
entry (p ∷ f) zero = p
entry (p ∷ f) (suc i) = entry f i

-- The fields of a benchmark: addresses that are not NULL and differ.
pub record AreFields (f : List ℕ) : Type 0 where
  pub not_null : (i : ℕ) → i < length f → entry f i ≢ 0
  pub apart : (i j : ℕ) → i < length f → j < length f → entry f i ≡ entry f j → i ≡ j

field_at-entry : (f : List ℕ) (i : ℕ) (w : World) → i < length f → field_at f i w ≡ ok (entry f i) w
unfolding field_at
field_at-entry [] i w l = absurd (omega arith)
field_at-entry (p ∷ f) zero w l = refl
field_at-entry (p ∷ f) (suc i) w l = field_at-entry f i w (omega arith)

module _ (f : List ℕ) (o : ℕ → ℕ) (m n : ℕ) where
  abbrev pub src_of : ℕ → ℕ
  src_of j = entry f (o (turn m n j))

  abbrev pub dst_of : ℕ → ℕ
  dst_of j = entry f (add32 (o (turn m n j)) m)

  -- One call of FFTW for each field, in the order of the loop.
  abbrev pub swept : (plan : ℕ) → ℕ → World → World
  swept plan zero w = w
  swept plan (suc j) w = after_call (mpi_execute_r2r plan (src_of j) (dst_of j)) (swept plan j w)

-- Every field and every target is an element of the array.
abbrev pub InRange : (f : List ℕ) (o : ℕ → ℕ) (m n : ℕ) → Type 0
InRange f o m n = (k : ℕ) → k < n → (o k < length f) × (add32 (o k) m < length f)

module _ (f : List ℕ) (fields : AreFields f) where
  pub same_entry : (a b : ℕ) → a < length f → b < length f → (entry f a == entry f b) ≡ (a == b)
  same_entry a b l l' = ground (arith, fields.apart a b l l', ap (entry f))

module _ (reason : String) (select : Plan → ℕ) (p : Plan) (f : List ℕ) (o : ℕ → ℕ) (m n : ℕ)
    (fields : AreFields f) (planned : select p ≢ 0) (in_range : InRange f o m n)
    (matches : (k : ℕ) → k < n → p.in_place ≡ (o k == add32 (o k) m)) where
  turn-lt : (j : ℕ) → j < n → turn m n j < n
  turn-lt j l = ground arith

  executed :
      (k : ℕ) (w : World)
      → k < n
      → execute reason select (some p) (entry f (o k)) (entry f (add32 (o k) m)) w
        ≡ ok success
            (after_call (mpi_execute_r2r (select p) (entry f (o k)) (entry f (add32 (o k) m))) w)
  executed k w l =
      let (a, b) = in_range k l in
      (execute-success_iff reason select p _ _ w _).1 (
        planned,
        fields.not_null _ a,
        fields.not_null _ b,
        matches k l ∙ sym (same_entry f fields (o k) (add32 (o k) m) a b),
        refl,
      )

  -- The plan accepts the buffers of every field.
  pub sweep-executes :
      (j : ℕ) (w : World)
      → j ≤ n
      → sweep (execute reason select (some p)) f o m n j w ≡ ok tt (swept f o m n (select p) j w)
  unfolding sweep ◌>>=◌
  sweep-executes zero w l = refl
  sweep-executes (suc j) w l =
      let u = swept f o m n (select p) j w in
      let k = turn m n j in
      let (a, b) = in_range k (turn-lt j (omega arith)) in
      rw (
        sweep-executes j w (omega arith),
        field_at-entry f (o k) u a,
        field_at-entry f (add32 (o k) m) u b,
        executed k u (turn-lt j (omega arith)),
      )

-- Without transforms only the transposes move, and each back where the one before came from.
pub only_transposes :
    {R : Type 0} (d : Details R)
    → d.fft_n0 ≡ b'i'
    → d.fft_n1 ≡ b'i'
    → d.fft_n2 ≡ b'i'
    → let m = movement_of d in
      let one = truth (not d.mpi_inplace) in
      (m.m1 ≡ one)
      × (m.m2 ≡ 0)
      × (m.m3 ≡ neg32 one)
      × (total m ≡ 0)
      × (m.m6 ≡ one)
      × (m.m7 ≡ 0)
      × (m.m8 ≡ neg32 one)
unfolding movement_of movement
only_transposes d e0 e1 e2 = elim (Bool-cases d.mpi_inplace) [
  | inl e ↦ rw (e, e0, e1, e2) (refl, refl, refl, refl, refl, refl, refl)
  | inr e ↦ rw (e, e0, e1, e2) (refl, refl, refl, refl, refl, refl, refl)
]

-- One place up, or none where the operation is in place, and back.
rising :
    (in_place : Bool) (c n m x : ℕ)
    → x ≡ c
    → m ≡ truth (not in_place)
    → c + truth (not in_place) < n
    → n < 2 ^ 31
    → (x < n) × (add32 x m < n) × (in_place ≡ (x == add32 x m))
rising true c n m x e h l s = ground arith
rising false c n m x e h l s = ground arith

falling :
    (in_place : Bool) (c n m x : ℕ)
    → x ≡ c + truth (not in_place)
    → m ≡ neg32 (truth (not in_place))
    → c + truth (not in_place) < n
    → n < 2 ^ 31
    → (x < n) × (add32 x m < n) × (in_place ≡ (x == add32 x m))
falling true c n m x e h l s = ground arith
falling false c n m x e h l s = ground arith

-- A plan for the first field and, out of place, the one behind it.
module _ (in_place : Bool) (p : Plan) (f : List ℕ) (n : ℕ) (fields : AreFields f)
    (small : length f < 2 ^ 31) (room : truth (not in_place) < length f)
    (complete : IsComplete (entry f 0) (entry f (truth (not in_place))) p) where
  abbrev one : ℕ
  one = truth (not in_place)

  made_in_place : p.in_place ≡ in_place
  made_in_place = complete.in_place ∙ same_entry f fields 0 one (omega arith) room ∙ bit in_place
    where
      bit : (b : Bool) → (0 == truth (not b)) ≡ b
      bit true = refl
      bit false = refl

  module _ (reason : String) (select : Plan → ℕ) (planned : select p ≢ 0) (o c : ℕ → ℕ)
      (within : (k : ℕ) → k < n → c k + one < length f) (m : ℕ) where
    pub rising_executes :
        (w : World)
        → ((k : ℕ) → k < n → o k ≡ c k)
        → m ≡ one
        → sweep (execute reason select (some p)) f o m n n w ≡ ok tt (swept f o m n (select p) n w)
    rising_executes w at e =
        let up = λ (k : ℕ) (l : k < n).
          rising in_place (c k) (length f) m (o k) (at k l) e (within k l) small in
        sweep-executes reason select p f o m n fields planned
          (λ k l. let (a, b, _) = up k l in (a, b)) (λ k l. made_in_place ∙ (up k l).2) n w
          (omega arith)

    pub falling_executes :
        (w : World)
        → ((k : ℕ) → k < n → o k ≡ c k + one)
        → m ≡ neg32 one
        → sweep (execute reason select (some p)) f o m n n w ≡ ok tt (swept f o m n (select p) n w)
    falling_executes w at e =
        let down = λ (k : ℕ) (l : k < n).
          falling in_place (c k) (length f) m (o k) (at k l) e (within k l) small in
        sweep-executes reason select p f o m n fields planned
          (λ k l. let (a, b, _) = down k l in (a, b)) (λ k l. made_in_place ∙ (down k l).2) n w
          (omega arith)
