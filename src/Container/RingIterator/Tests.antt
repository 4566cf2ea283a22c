-- ===== src/Container/RingIterator/Tests.antt =====
-- Walks round a range of five elements.
use v1util.Common.{◌+◌, ◌-◌, ◌^◌, ◌≡◌, refl, some, none, ◌>>=◌, List, [], ◌∷◌, arith}
use v1util.Common.Int.{pos}
use v1util.Container.RingIterator.{
  make_ring, step_forward, step_back, place, advance, retreat, Move, increments, decrements,
  advances, retreats, move, walk, displacement, modulo,
}
use v1util.Container.RingIterator.Walks.{walk-displacement}

-- One back, twelve back, four on, one on: eight back from the first element.
abbrev moves : List Move
moves = decrements ∷ retreats (pos 12) ∷ advances (pos 4) ∷ increments ∷ []

walk_run : (walk moves (make_ring 20 25) >>= λ r. some r.iter) ≡ some 22
unfolding walk move make_ring step_forward step_back place advance retreat
walk_run = refl

-- The largest offset cannot be incremented.
overflow_run : walk (advances (pos (2 ^ 63 - 1)) ∷ increments ∷ []) (make_ring 20 25) ≡ none
unfolding walk move make_ring step_forward place advance
overflow_run = refl

walk-displacement_example :
    (walk moves (make_ring 20 25) >>= λ r. some r.iter)
    ≡ (displacement moves (pos 0) >>= λ o. some (20 + modulo o (25 - 20)))
walk-displacement_example = walk-displacement 20 25 moves (omega arith)
