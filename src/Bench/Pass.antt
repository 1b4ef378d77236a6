-- ===== src/Bench/Pass.antt =====
-- The main loop of the benchmark: what the operations do to the contents of the buffers. An
-- operation of FFTW writes its result and may destroy an input that is not its output.
use underling.Common.{ℕ, zero, suc, ◌-◌, ◌^◌, ◌==◌, ltb, Bool, ◌&&◌, ◌||◌, if◌then◌else◌}
use underling.Bench.Defs.{Details, Movement, add32}
use underling.Bench.Movement.{total}

-- `for (int j = 0; j < n; ++j)`.
unfoldable pub loop {ℓ} : {S : Type ℓ} → ℕ → (ℕ → S → S) → S → S
loop zero body s = s
loop (suc n) body s = body n (loop n body s)

abbrev pub update {ℓ} : {V : Type ℓ} → (ℕ → V) → ℕ → V → ℕ → V
update f i v j = if j == i then v else f j

-- `int k`.
abbrev pub turn : (m nfields j : ℕ) → ℕ
turn m nfields j = if ltb m (2 ^ 31) then j else nfields - 1 - j

-- Whether a plan is made for a direction with this letter.
abbrev pub planned : ℕ → Bool
planned letter = letter == b'c' || letter == b'r'

-- `o[j] += m`, `o[i] = i`, and `o[i] = m[0] + m[1] + m[2] + m[3] + m[4]`, for every field.
abbrev pub moved : (m nfields : ℕ) → (ℕ → ℕ) → ℕ → ℕ
moved m nfields o = loop nfields (λ j o. update o j (add32 (o j) m)) o

abbrev pub numbered : (nfields : ℕ) → (ℕ → ℕ) → ℕ → ℕ
numbered nfields o = loop nfields (λ i o. update o i i) o

abbrev pub all_at : (place nfields : ℕ) → (ℕ → ℕ) → ℕ → ℕ
all_at place nfields o = loop nfields (λ i o. update o i place) o

module _ (V : Type 0) where
  -- An operation of FFTW on a buffer: its result, and what it leaves of an input elsewhere.
  pub record Operation : Type 0 where
    pub result : V → V
    pub left : V → V

  -- The contents of `f[i]`, and the array `o`.
  pub record Buffers : Type 0 where
    pub f : ℕ → V
    pub o : ℕ → ℕ

  -- The operations of a benchmark, in the order of `m`.
  pub record Operations : Type 0 where
    pub forward_n2 : Operation
    pub n2_to_n1 : Operation
    pub forward_n1 : Operation
    pub n1_to_n0 : Operation
    pub forward_n0 : Operation
    pub backward_n0 : Operation
    pub n0_to_n1 : Operation
    pub backward_n1 : Operation
    pub n1_to_n2 : Operation
    pub backward_n2 : Operation
    pub normalize : V → V

module _ {V : Type 0} where
  unfoldable pub run_on : Operation V → (src dst : ℕ) → (ℕ → V) → ℕ → V
  run_on op src dst f =
      if src == dst
      then update f src (op.result (f src))
      else update (update f dst (op.result (f src))) src (op.left (f src))

  -- One operation on every field.
  unfoldable pub execute_all : Operation V → (m nfields : ℕ) → Buffers V → Buffers V
  execute_all op m nfields s = record s {
    f = loop nfields (λ j f. let k = turn m nfields j in run_on op (s.o k) (add32 (s.o k) m) f) s.f;
  }

  unfoldable pub advance : (m nfields : ℕ) → Buffers V → Buffers V
  advance m nfields s = record s { o = moved m nfields s.o }

  -- A transpose; a transform of long_n2 or of long_n0; and one of long_n1, after which `o` is
  -- advanced also without a plan.
  unfoldable pub transpose : Operation V → (m nfields : ℕ) → Buffers V → Buffers V
  transpose op m nfields s = advance m nfields (execute_all op m nfields s)

  unfoldable pub transform : Bool → Operation V → (m nfields : ℕ) → Buffers V → Buffers V
  transform planned op m nfields s = if planned then transpose op m nfields s else s

  unfoldable pub transform_n1 : Bool → Operation V → (m nfields : ℕ) → Buffers V → Buffers V
  transform_n1 planned op m nfields s =
      advance m nfields (if planned then execute_all op m nfields s else s)

  unfoldable pub start_forward : ℕ → Buffers V → Buffers V
  start_forward nfields s = record s { o = numbered nfields s.o }

  unfoldable pub start_backward : Movement → ℕ → Buffers V → Buffers V
  start_backward m nfields s = record s { o = all_at (total m) nfields s.o }

-- The body of the main loop, from what its three parts do.
unfoldable pub in_directions :
    {S : Type 0} (forward backward : Bool) (go come normalize : S → S) → S → S
in_directions forward backward go come normalize s =
    let s1 = if forward then go s else s in
    let s2 = if backward then come s1 else s1 in if forward && backward then normalize s2 else s2

module _ {R V : Type 0} (d : Details R) (m : Movement) (ops : Operations V) (nfields : ℕ) where
  -- The bodies of `if (d.forward)` and of `if (d.backward)`.
  unfoldable pub forward_pass : Buffers V → Buffers V
  forward_pass s =
      let s0 = start_forward nfields s in
      let s1 = transform (planned d.fft_n2) ops.forward_n2 m.m0 nfields s0 in
      let s2 = transpose ops.n2_to_n1 m.m1 nfields s1 in
      let s3 = transform_n1 (planned d.fft_n1) ops.forward_n1 m.m2 nfields s2 in
      let s4 = transpose ops.n1_to_n0 m.m3 nfields s3 in
      transform (planned d.fft_n0) ops.forward_n0 m.m4 nfields s4

  unfoldable pub backward_pass : Buffers V → Buffers V
  backward_pass s =
      let s0 = start_backward m nfields s in
      let s1 = transform (planned d.fft_n0) ops.backward_n0 m.m5 nfields s0 in
      let s2 = transpose ops.n0_to_n1 m.m6 nfields s1 in
      let s3 = transform_n1 (planned d.fft_n1) ops.backward_n1 m.m7 nfields s2 in
      let s4 = transpose ops.n1_to_n2 m.m8 nfields s3 in
      transform (planned d.fft_n2) ops.backward_n2 m.m9 nfields s4

  -- `f[i][j] *= normalization`.
  unfoldable pub normalize_all : Buffers V → Buffers V
  normalize_all s = record s { f = loop nfields (λ i f. update f i (ops.normalize (f i))) s.f }

  unfoldable pub iteration : Buffers V → Buffers V
  iteration s = in_directions d.forward d.backward forward_pass backward_pass normalize_all s

  unfoldable pub iterations : ℕ → Buffers V → Buffers V
  iterations repeat s = loop repeat (λ i. iteration) s
