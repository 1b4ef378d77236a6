-- ===== src/Machine/Sent.antt =====
-- What a run has broadcast, read off the trace.
use underling.Common.{
  ℕ, ◌≡◌, refl, ◌==◌, ◌⊎◌, inl, inr, Bool, true, false, List, [], ◌∷◌, if◌then◌else◌, arith,
}
use underling.Machine.Run.{Call, Trace, bcast, event}

abbrev pub Payload : Type 0
Payload = ℕ × ℕ

-- The event's payload before those of the older events, if it is a broadcast on the communicator.
unfoldable pub with_payload : (comm : ℕ) → Call → List Payload → List Payload
with_payload comm (bcast x y c) rest = if comm == c then (x, y) ∷ rest else rest
with_payload comm _ rest = rest

-- The payloads of all broadcasts on a communicator, the latest first.
unfoldable pub sent : (comm : ℕ) → Trace → List Payload
unfolding with_payload
sent comm [] = []
sent comm (e ∷ t) = with_payload comm e.call (sent comm t)

abbrev pub Among : Payload → List Payload → Type 0
Among v [] = ⊥
Among v (u ∷ l) = (v ≡ u) ⊎ Among v l

-- A trace that goes on from another one has all of its broadcasts.
pub record GoesOn (t t' : Trace) : Type 0 where
  pub keeps : (comm : ℕ) (v : Payload) → Among v (sent comm t) → Among v (sent comm t')

pub goes_on_refl : (t : Trace) → GoesOn t t
goes_on_refl t = record { keeps = λ c v h. h }

pub goes_on_trans : {t t' t'' : Trace} → GoesOn t t' → GoesOn t' t'' → GoesOn t t''
goes_on_trans p q = record { keeps = λ c v h. q.keeps c v (p.keeps c v h) }

more :
    (comm : ℕ) (c : Call) (rest : List Payload) (v : Payload)
    → Among v rest
    → Among v (with_payload comm c rest)
unfolding with_payload
more comm (bcast x y c) rest v h = at (comm == c)
  where
    at : (b : Bool) → Among v (if b then (x, y) ∷ rest else rest)
    at true = inr h
    at false = h
more comm _ rest v h = h

pub goes_on_event : (c : Call) (s o : ℕ) (t : Trace) → GoesOn t (event c s o ∷ t)
unfolding sent
goes_on_event c s o t = record { keeps = λ comm v h. more comm c (sent comm t) v h }

pub sent-bcast :
    (x y comm s o : ℕ) (t : Trace) → Among (x, y) (sent comm (event (bcast x y comm) s o ∷ t))
unfolding sent with_payload
sent-bcast x y comm s o t = let e : (comm == comm) ≡ true = ground arith in rw e (inl refl)
