-- ===== src/Bench/Field.antt =====
-- `fill_field` and `check_field`: a field is filled with random numbers, and compared with them
-- again later.
pub mod Laws
pub mod Silent
use underling.Common.{
  ℕ, zero, suc, ◌+◌, ◌*◌, ◌/◌, ◌%◌, ◌==◌, ◌&&◌, ltb, Bool, true, false, Option, none, some,
  if◌then◌else◌,
}
use underling.FftwExtents.Defs.{Five, get5}
use underling.Fftw.Defs.{FftwPlan}
use underling.Bench.Pass.{update}

-- The random numbers of libc: `S` is the state of the library, and a buffer of states is named by its
-- address.
pub record Generator (S : Type 0) : Type 0 where
  pub initstate : (seed buffer : ℕ) → S → ℕ × S
  pub setstate : (buffer : ℕ) → S → ℕ × S
  pub random : S → ℕ × S

-- The arithmetic of `double`: `random() * inv_rand_max + salt`, `fabs(a - b)` and `fmax`.
pub record Reals (V : Type 0) : Type 0 where
  pub zero_real : V
  pub scaled_random : (number salt : ℕ) → V
  pub distance : V → V → V
  pub fmax : V → V → V

module _ {S V : Type 0} (g : Generator S) (reals : Reals V) where
  -- The loop of `fill_field`, with `left` elements left from the `i`-th.
  unfoldable pub fill_loop : (salt left i : ℕ) → (ℕ → V) → S → (ℕ → V) × S
  fill_loop salt zero i p s = (p, s)
  fill_loop salt (suc n) i p s =
      let (number, s') = g.random s in
      fill_loop salt n (suc i) (update p i (reals.scaled_random number salt)) s'

  -- The two loops of `check_field`: elements that are not relevant are passed over.
  unfoldable pub check_loop :
      (relevant : ℕ → Bool) → (salt left i : ℕ) → (ℕ → V) → (maxabserr : V) → S → V × S
  check_loop relevant salt zero i p m s = (m, s)
  check_loop relevant salt (suc n) i p m s =
      let (number, s') = g.random s in
      let expected = reals.scaled_random number salt in
      check_loop relevant salt n (suc i) p
        (if relevant i then reals.fmax m (reals.distance (p i) expected) else m) s'

  -- `state` is the address of the array of the function, and `initstate` has already put it to use
  -- when `setstate` is called.
  unfoldable pub seed_with : (seed state : ℕ) → S → ℕ × S
  seed_with seed state s = let (_, s') = g.initstate seed state s in g.setstate state s'

  -- `fill_field`, on a field that is not NULL.
  unfoldable pub fill_field : (rank bytes salt state : ℕ) → (ℕ → V) → S → (ℕ → V) × S
  fill_field rank bytes salt state p s =
      let (previous, s1) = seed_with (rank + salt) state s in
      let (p', s2) = fill_loop salt (bytes / 8) 0 p s1 in
      let (_, s3) = g.setstate previous s2 in (p', s3)

  -- The input of a plan that is real has padding between and behind its data.
  abbrev pub is_real : Option FftwPlan → Bool
  is_real none = false
  is_real (some f) = get5 f.input.size 4 == 1

  unfoldable pub count_of : Option FftwPlan → (count : ℕ) → ℕ
  count_of none count = count
  count_of (some f) count =
      let o4 = get5 f.input.order 4 in
      let limit = get5 f.input.stride o4 * get5 f.input.size o4 in
      if get5 f.input.size 4 == 1 then (if ltb count limit then count else limit) else count

  unfoldable pub is_relevant : Option FftwPlan → ℕ → Bool
  is_relevant none i = true
  is_relevant (some f) i =
      if get5 f.input.size 4 == 1
      then ltb (i % get5 f.input.stride (get5 f.input.order 3))
          (get5 f.input.size (get5 f.input.order 2))
      else true

  -- `check_field`, on a field that is not NULL.
  unfoldable pub check_field : (rank bytes salt state : ℕ) → Option FftwPlan → (ℕ → V) → S → V × S
  check_field rank bytes salt state plan p s =
      let (previous, s1) = seed_with (rank + salt) state s in
      let (m, s2) =
        check_loop (is_relevant plan) salt (count_of plan (bytes / 8)) 0 p reals.zero_real s1 in
      let (_, s3) = g.setstate previous s2 in (m, s3)
