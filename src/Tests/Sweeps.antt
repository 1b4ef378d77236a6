-- ===== src/Tests/Sweeps.antt =====
-- The transposes of both passes on one field, out of place.
use underling.Common.{ℕ, zero, suc, ◌≡◌, ◌≢◌, ◌<◌, refl, List, [], ◌∷◌, some, length, arith}
use underling.Machine.{ok}
use underling.Plan.Create.{transpose_none}
use underling.Bench.Defs.{Details}
use underling.Bench.Main.{go_forward, go_backward}
use underling.Bench.Main.Sweeps.{entry, AreFields}
use underling.Bench.Main.Passes.{no_transforms, swept_forward, swept_backward, create-sweeps}
use underling.Tests.Worlds.{world}
use underling.Tests.Problems.{problem}
use underling.Tests.Plans.{src, dst, plan, after_creation, created}
use underling.Tests.Programs.{details}

abbrev only_transposing : Details ℕ
only_transposing = record details { fft_n2 = b'i' }

abbrev buffers : List ℕ
buffers = src ∷ dst ∷ []

buffers-AreFields : AreFields buffers
buffers-AreFields = record { not_null = not_null; apart = apart }
  where
    not_null : (i : ℕ) → i < length buffers → entry buffers i ≢ 0
    not_null zero l e = absurd (omega arith)
    not_null (suc zero) l e = absurd (omega arith)
    not_null (suc (suc i)) l e = absurd (omega arith)

    apart :
        (i j : ℕ)
        → i < length buffers
        → j < length buffers
        → entry buffers i ≡ entry buffers j
        → i ≡ j
    apart zero zero l l' e = refl
    apart zero (suc zero) l l' e = absurd (omega arith)
    apart (suc zero) zero l l' e = absurd (omega arith)
    apart (suc zero) (suc zero) l l' e = refl
    apart (suc (suc i)) j l l' e = absurd (omega arith)
    apart i (suc (suc j)) l l' e = absurd (omega arith)

create-sweeps_example :
    (go_forward only_transposing (some plan) no_transforms buffers world
      ≡ ok tt (swept_forward only_transposing buffers plan world))
    × (go_backward only_transposing (some plan) no_transforms buffers world
        ≡ ok tt (swept_backward only_transposing buffers plan world))
create-sweeps_example =
    create-sweeps only_transposing buffers plan refl refl refl (omega arith) buffers-AreFields
      (omega arith) (omega arith) (some problem) transpose_none 0 world after_creation world created
