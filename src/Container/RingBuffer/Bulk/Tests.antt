-- ===== src/Container/RingBuffer/Bulk/Tests.antt =====
-- The block-wise operations at concrete buffers.
use v1util.Common.{ℕ, ◌≡◌, refl, List, [], ◌∷◌, ◌++◌, length, some, arith}
use v1util.Container.RingBuffer.{RingBuffer}
use v1util.Container.RingBuffer.Holds.{Holds, linear, wrapped}
use v1util.Container.RingBuffer.Bulk.{fill_from, drain_to}
use v1util.Container.RingBuffer.Bulk.Fill.{fill_from-Holds}
use v1util.Container.RingBuffer.Bulk.Drain.{drain_to-Holds}

-- The block goes round the end of the storage.
abbrev before_fill : RingBuffer ℕ
before_fill = record { capacity = 5; storage = 0 ∷ 0 ∷ 6 ∷ 7 ∷ 0 ∷ []; head = 4; tail = 2 }

before_fill-Holds : Holds 4 before_fill (6 ∷ 7 ∷ [])
before_fill-Holds =
    linear (0 ∷ 0 ∷ []) (0 ∷ []) refl refl refl (omega arith) refl refl (omega arith)

fill_from-Holds_example :
    (r : RingBuffer ℕ) × (fill_from before_fill (8 ∷ 9 ∷ []) ≡ some r)
    × Holds 4 r ((6 ∷ 7 ∷ []) ++ (8 ∷ 9 ∷ []))
fill_from-Holds_example = fill_from-Holds (8 ∷ 9 ∷ []) before_fill-Holds (omega arith)

-- The elements stand in two stretches.
abbrev before_drain : RingBuffer ℕ
before_drain = record { capacity = 5; storage = 8 ∷ 9 ∷ 0 ∷ 6 ∷ 7 ∷ []; head = 2; tail = 3 }

abbrev drained : List ℕ
drained = 6 ∷ 7 ∷ 8 ∷ []

before_drain-Holds : Holds 4 before_drain ((6 ∷ 7 ∷ 8 ∷ []) ++ (9 ∷ []))
before_drain-Holds =
    wrapped (8 ∷ 9 ∷ []) (0 ∷ []) (6 ∷ 7 ∷ []) refl refl refl refl (omega arith) (omega arith) refl
      refl (omega arith)

drain_to-Holds_example :
    (r : RingBuffer ℕ) × (drain_to before_drain (length drained) ≡ some (drained, r))
    × Holds 4 r (9 ∷ [])
drain_to-Holds_example = drain_to-Holds drained (9 ∷ []) before_drain-Holds
