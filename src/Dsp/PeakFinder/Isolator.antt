-- ===== src/Dsp/PeakFinder/Isolator.antt =====
-- `SlidingWindowDominantPeakIsolator` of dsp/peakfinder.hpp, as a debug build has it, over deques that
-- keep the laws of `FixedSizeDeque`. The calls of `dominantPeakHandler` are the list of the peaks that it
-- is called with.
pub mod Dominance
pub mod Memory
pub mod Invariant
pub mod Wait
pub mod Settle
pub mod Steps
pub mod Events
pub mod Calls
pub mod Early
pub mod Purge
pub mod Correct
pub mod Tests
use v1util.Common.{
  ℕ, zero, suc, ◌+◌, ◌-◌, ◌*◌, ◌%◌, ltb, leb, ◌==◌, if◌then◌else◌, Bool, true, false, not, ◌&&◌,
  ◌||◌, Option, none, some, List, [], ◌∷◌, ◌++◌, ◌>>=◌, ◌>>◌, v1_assert,
}
use v1util.Common.Word.{word, add64, sub64}
use v1util.Base.Math.{ring_greater_eq}
use v1util.Container.Deque.{Deque}
use v1util.Container.Deque.Loops.{pop_back_while, pop_front_while}
use v1util.Dsp.PeakFinder.Detector.{PeakType, peak, rising, falling, RawPeak}

-- `PeakFinderValueAtPos`
pub record ValueAtPos : Type 0 where
  pub stream_pos : ℕ
  pub value : ℕ

abbrev pub value_at_pos : RawPeak → ValueAtPos
value_at_pos p = record { stream_pos = p.stream_pos; value = p.value }

abbrev pub is_peak : PeakType → Bool
is_peak peak = true
is_peak rising = false
is_peak falling = false

abbrev pub is_rising : PeakType → Bool
is_rising peak = false
is_rising rising = true
is_rising falling = false

-- The age that `cleanOldRightDominantPeaks` waits for.
unfoldable pub old_enough : ℕ → ℕ → RawPeak → Bool
old_enough window now p = leb window (sub64 now p.stream_pos)

module _ (q : Deque RawPeak) (l : Deque ValueAtPos) where
  pub record Isolator : Type 0 where
    pub window_size : ℕ
    pub right_dominant_peaks : q.Carrier
    pub left_dominance_memory : l.Carrier
    pub last_purge_stream_pos : ℕ

  unfoldable pub make_isolator : ℕ → Option Isolator
  make_isolator lockout_distance = do
    v1_assert (ltb 0 lockout_distance)
    let pattern_size = (2 * lockout_distance + 1) % word
    some (record {
      window_size = lockout_distance;
      right_dominant_peaks = q.with_capacity pattern_size;
      left_dominance_memory = l.with_capacity pattern_size;
      last_purge_stream_pos = word - 1;
    })

  unfoldable pub add_lockout_for_initial_value : ValueAtPos → Isolator → Option Isolator
  add_lockout_for_initial_value initial_value s = do
    left ← l.push_back initial_value s.left_dominance_memory
    some (record s { left_dominance_memory = left })

  -- The value at a deque's back, or the smallest value.
  unfoldable pub youngest_raw_peak_value : Isolator → Option ℕ
  youngest_raw_peak_value s =
      if q.empty s.right_dominant_peaks
      then some 0
      else (do p ← q.back s.right_dominant_peaks; some p.value)

  unfoldable pub youngest_left_dominance_memory_value : Isolator → Option ℕ
  youngest_left_dominance_memory_value s =
      if l.empty s.left_dominance_memory
      then some 0
      else (do c ← l.back s.left_dominance_memory; some c.value)

  -- `checkLeftDominanceAndRememberRightDominantPeak`: the accepted peak, if any, and the left memory.
  unfoldable pub check_left_dominance : ℕ → RawPeak → l.Carrier → Option (List RawPeak × l.Carrier)
  check_left_dominance window p left = do
    young ←
        pop_front_while l (λ c. ltb window (sub64 p.stream_pos c.stream_pos)) (l.size left + 1) left
    big ← pop_back_while l (λ c. ltb c.value p.value) (l.size young + 1) young
    let accepted : List RawPeak = if is_peak p.type && l.empty big then p ∷ [] else []
    remembered ← l.push_back (value_at_pos p) big
    some (accepted, remembered)

  -- `cleanOldRightDominantPeaks`, with fuel.
  unfoldable pub clean_old :
      ℕ → ℕ → ℕ → q.Carrier → l.Carrier → Option (List RawPeak × q.Carrier × l.Carrier)
  clean_old zero window now right left = none
  clean_old (suc fuel) window now right left = elim (q.empty right) [
    | true ↦ some ([], right, left)
    | false ↦ do
      p ← q.front right
      elim (old_enough window now p) [
        | true ↦ do
          (accepted, left') ← check_left_dominance window p left
          right' ← q.pop_front right
          (more, right'', left'') ← clean_old fuel window now right' left'
          some (accepted ++ more, right'', left'')
        | false ↦ some ([], right, left)
      ]
  ]

  unfoldable pub clean_isolator : ℕ → Isolator → Option (List RawPeak × Isolator)
  clean_isolator now s = do
    (accepted, right, left) ←
        clean_old (q.size s.right_dominant_peaks + 1) s.window_size now s.right_dominant_peaks
          s.left_dominance_memory
    some (accepted, record s { right_dominant_peaks = right; left_dominance_memory = left })

  -- The part of `onRawPeakEvent` behind its early return.
  unfoldable pub enqueue : RawPeak → Isolator → Option (List RawPeak × Isolator)
  enqueue p s = do
    right ←
        pop_back_while q
          (λ c. ltb c.value p.value && leb (sub64 p.stream_pos c.stream_pos) s.window_size)
          (q.size s.right_dominant_peaks + 1) s.right_dominant_peaks
    right' ← (if is_rising p.type then some right else q.push_back p right)
    clean_isolator p.stream_pos (record s { right_dominant_peaks = right' })

  unfoldable pub on_raw_peak_event : RawPeak → Isolator → Option (List RawPeak × Isolator)
  on_raw_peak_event p s = do
    raw_value ← youngest_raw_peak_value s
    left_value ← youngest_left_dominance_memory_value s
    v1_assert (
        ring_greater_eq 63 p.stream_pos s.last_purge_stream_pos
        || leb p.value raw_value
        || leb p.value left_value)
    elim (q.empty s.right_dominant_peaks) [
      | true ↦ enqueue p s
      | false ↦ do
        back ← q.back s.right_dominant_peaks
        v1_assert (not (p.stream_pos == back.stream_pos) || (is_peak p.type && is_rising back.type))
        elim (p.stream_pos == back.stream_pos) [
          | true ↦ do
            v1_assert (p.value == back.value)
            right ← q.set_back (record back { type = p.type }) s.right_dominant_peaks
            some ([], record s { right_dominant_peaks = right })
          | false ↦ do v1_assert (ring_greater_eq 63 p.stream_pos back.stream_pos); enqueue p s
        ]
    ]

  -- The part of `purgeUpUntil` behind its early return.
  unfoldable pub purge_old : ℕ → Isolator → Option (List RawPeak × Isolator)
  purge_old stream_pos s = do
    elim (l.empty s.left_dominance_memory) [
      | true ↦ clean_isolator stream_pos s
      | false ↦ do
        oldest ← l.front s.left_dominance_memory
        v1_assert (ring_greater_eq 63 stream_pos oldest.stream_pos)
        left ←
            pop_front_while l
              (λ c. ltb ((3 * s.window_size + 1) % word) (sub64 stream_pos c.stream_pos))
              (l.size s.left_dominance_memory + 1) s.left_dominance_memory
        clean_isolator stream_pos (record s { left_dominance_memory = left })
    ]

  unfoldable pub purge_up_until : ℕ → Isolator → Option (List RawPeak × Isolator)
  purge_up_until stream_pos s = do
    v1_assert (ring_greater_eq 63 stream_pos (sub64 s.last_purge_stream_pos s.window_size))
    let s' = record s { last_purge_stream_pos = stream_pos }
    youngest ←
        (if q.empty s.right_dominant_peaks
          then some stream_pos
          else (do p ← q.back s.right_dominant_peaks; some p.stream_pos))
    elim (ring_greater_eq 63 youngest stream_pos) [
      | true ↦ some ([], s')
      | false ↦ purge_old stream_pos s'
    ]

  -- A client that feeds a sequence of raw peaks, oldest first.
  unfoldable pub on_raw_peak_events : List RawPeak → Isolator → Option (List RawPeak × Isolator)
  on_raw_peak_events [] s = some ([], s)
  on_raw_peak_events (p ∷ ps) s = do
    (accepted, s') ← on_raw_peak_event p s
    (more, s'') ← on_raw_peak_events ps s'
    some (accepted ++ more, s'')

  -- A client that feeds raw peaks to a new isolator and purges it once.
  unfoldable pub isolate_all : ℕ → List RawPeak → ℕ → Option (List RawPeak)
  isolate_all lockout_distance ps stream_pos = do
    s ← make_isolator lockout_distance
    (accepted, s') ← on_raw_peak_events ps s
    (more, s'') ← purge_up_until stream_pos s'
    some (accepted ++ more)

  -- The same with the value of the first sample.
  unfoldable pub isolate_from : ℕ → ValueAtPos → List RawPeak → ℕ → Option (List RawPeak)
  isolate_from lockout_distance initial_value ps stream_pos = do
    s ← make_isolator lockout_distance
    s' ← add_lockout_for_initial_value initial_value s
    (accepted, s'') ← on_raw_peak_events ps s'
    (more, s''') ← purge_up_until stream_pos s''
    some (accepted ++ more)
