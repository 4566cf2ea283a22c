-- ===== src/Dsp/PeakFinder/Isolator/Tests.antt =====
-- Runs of the dominant peak isolator over the ring buffer of the source.
use v1util.Common.{
  ℕ, ◌≡◌, ◌↔◌, inl, inr, refl, true, false, Option, some, List, [], ◌∷◌, ◌++◌, map, rev_onto,
  Descending, ◌>>=◌, arith,
}
use mathlib.Core.List.{Memᴰ}
use v1util.Common.Word.{add64, sub64}
use v1util.Container.RingBuffer
use v1util.Container.RingBuffer.{set_capacity}
use v1util.Container.FixedSizeDeque
use v1util.Container.Deque.{Deque}
use v1util.Container.Deque.Loops.{pop_back_while, pop_front_while}
use v1util.Container.RingDeque.{ring_deque}
use v1util.Base.Math.{wrapping_sub, ring_greater_eq}
use v1util.Dsp.PeakFinder.Detector.{RawPeak, PeakType, peak, rising, falling}
use v1util.Dsp.PeakFinder.Isolator.{
  ValueAtPos, make_isolator, isolate_all, youngest_raw_peak_value,
  youngest_left_dominance_memory_value, check_left_dominance, clean_old, old_enough, clean_isolator,
  enqueue, on_raw_peak_event, on_raw_peak_events, purge_old, purge_up_until,
}
use v1util.Dsp.PeakFinder.Isolator.Calls.{Continues}
use v1util.Dsp.PeakFinder.Isolator.Purge.{Dominant}
use v1util.Dsp.PeakFinder.Isolator.Correct.{isolate_all-Dominant}

abbrev pub peak_queue : Deque RawPeak
peak_queue = ring_deque (record { stream_pos = 0; value = 0; type = falling })

abbrev pub value_queue : Deque ValueAtPos
value_queue = ring_deque (record { stream_pos = 0; value = 0 })

abbrev raw : ℕ → ℕ → PeakType → RawPeak
raw pos value type = record { stream_pos = pos; value = value; type = type }

-- Raw peaks, then a purge: the positions of the accepted peaks.
isolated : ℕ → List RawPeak → ℕ → Option (List ℕ)
unfolding make_isolator youngest_raw_peak_value youngest_left_dominance_memory_value
    check_left_dominance clean_old old_enough clean_isolator enqueue on_raw_peak_event
    on_raw_peak_events purge_old purge_up_until set_capacity add64 sub64 RingBuffer.push
    RingBuffer.pop RingBuffer.peek RingBuffer.size RingBuffer.full RingBuffer.usable_capacity
    RingBuffer.available_size RingBuffer.load RingBuffer.store RingBuffer.empty
    FixedSizeDeque.push_back FixedSizeDeque.before FixedSizeDeque.front FixedSizeDeque.pop_front
    FixedSizeDeque.back FixedSizeDeque.pop_back FixedSizeDeque.set_back pop_back_while
    pop_front_while ring_greater_eq wrapping_sub
isolated lockout_distance peaks end = do
  s ← make_isolator peak_queue value_queue lockout_distance
  (accepted, s') ← on_raw_peak_events peak_queue value_queue peaks s
  (more, s'') ← purge_up_until peak_queue value_queue end s'
  some (map RawPeak.stream_pos (accepted ++ more))

isolated_run :
    isolated 10 (raw 5 100 peak ∷ raw 14 50 peak ∷ raw 16 30 falling ∷ raw 40 20 peak ∷ []) 60
    ≡ some (5 ∷ 40 ∷ [])
unfolding isolated
isolated_run = refl

-- A purge more than 3 * 10 + 1 samples behind the first peak forgets that it dominates the second.
isolated_late :
    isolated 10 (raw 5 100 peak ∷ raw 14 50 peak ∷ raw 16 30 falling ∷ []) 127 ≡ some (5 ∷ 14 ∷ [])
unfolding isolated
isolated_late = refl

abbrev script : List RawPeak
script =
    raw 5 100 peak ∷ raw 14 50 peak ∷ raw 16 30 falling ∷ raw 38 20 rising ∷ raw 38 20 peak ∷ []

higher : {A : Type 0} → false ≡ true → A
higher e = absurd (cc)

script-Continues : Continues script []
script-Continues =
    let t : Continues [] script = tt in
    (
      tt,
      omega arith,
      (
        inl (omega arith, higher),
        omega arith,
        (
          inl (omega arith, higher),
          omega arith,
          (inl (omega arith, higher), omega arith, (inr (refl, refl, refl, refl), omega arith, t)),
        ),
      ),
    )

isolate_all-Dominant_run :
    (accepted : List RawPeak) × (isolate_all peak_queue value_queue 10 script 48 ≡ some accepted)
    × Descending RawPeak.stream_pos (rev_onto accepted [])
    × ((p : RawPeak) → Memᴰ p accepted ↔ Dominant 10 48 script p)
isolate_all-Dominant_run =
    isolate_all-Dominant peak_queue value_queue 10 script 48 (omega arith) (omega arith)
      script-Continues (omega arith) (omega arith) (omega arith)
