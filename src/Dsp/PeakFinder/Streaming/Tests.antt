-- ===== src/Dsp/PeakFinder/Streaming/Tests.antt =====
-- Blocks of samples through the streaming peak finder.
use mathlib.Core.List.{Memᴰ}
use v1util.Common.{
  ◌↔◌, Descending, rev_onto, ◌-◌, ◌≤◌, ◌<◌, ◌+◌, arith, ℕ, ◌≡◌, refl, Option, some, List, [], ◌∷◌,
  ◌++◌, map, replicate, length, ◌>>=◌,
}
use v1util.Common.Word.{add64, sub64}
use v1util.Container.RingBuffer
use v1util.Container.RingBuffer.{set_capacity}
use v1util.Container.FixedSizeDeque
use v1util.Container.Deque.Loops.{pop_back_while, pop_front_while}
use v1util.Base.Math.{wrapping_sub, ring_greater_eq}
use v1util.Dsp.PeakFinder.Detector.{
  RawPeak, make_detector, process, scan, scan_step, on_sample, on_falling, current_plateau_size,
  current_plateau_value,
}
use v1util.Dsp.PeakFinder.Isolator.{
  make_isolator, add_lockout_for_initial_value, youngest_raw_peak_value,
  youngest_left_dominance_memory_value, check_left_dominance, clean_old, old_enough, clean_isolator,
  enqueue, on_raw_peak_event, purge_old, purge_up_until,
}
use v1util.Dsp.PeakFinder.Isolator.Tests.{peak_queue, value_queue}
use v1util.Dsp.PeakFinder.Detector.Runs.{Run, samples_of, Alternating, all_reports}
use v1util.Dsp.PeakFinder.Detector.Reports.{fresh}
use v1util.Dsp.PeakFinder.Isolator.Purge.{Dominant}
use v1util.Dsp.PeakFinder.Streaming.Peaks.{detect_and_isolate, detect_and_isolate-Dominant}
use v1util.Dsp.PeakFinder.Streaming.{
  pattern_size_of, StreamingPeakFinder, make_streaming_peak_finder, begin_stream, isolate,
  peak_detector_delay, process_block,
}

-- The positions of the peaks, block after block.
blocks : List (List ℕ) → ℕ → StreamingPeakFinder peak_queue value_queue → Option (List ℕ)
unfolding youngest_raw_peak_value youngest_left_dominance_memory_value check_left_dominance
    clean_old old_enough clean_isolator enqueue on_raw_peak_event purge_old purge_up_until add64
    sub64 RingBuffer.push RingBuffer.pop RingBuffer.peek RingBuffer.size RingBuffer.full
    RingBuffer.usable_capacity RingBuffer.available_size RingBuffer.load RingBuffer.store
    RingBuffer.empty FixedSizeDeque.push_back FixedSizeDeque.before FixedSizeDeque.front
    FixedSizeDeque.pop_front FixedSizeDeque.back FixedSizeDeque.pop_back FixedSizeDeque.set_back
    pop_back_while pop_front_while ring_greater_eq wrapping_sub process scan scan_step on_sample
    on_falling current_plateau_size current_plateau_value add_lockout_for_initial_value begin_stream
    isolate peak_detector_delay process_block
blocks [] pos s = some []
blocks (b ∷ bs) pos s = do
  (peaks, s') ← process_block peak_queue value_queue b pos 10 s
  more ← blocks bs (add64 pos (length b)) s'
  some (map RawPeak.stream_pos peaks ++ more)

stream : ℕ → List (List ℕ) → Option (List ℕ)
unfolding make_streaming_peak_finder make_detector make_isolator set_capacity sub64
stream pattern_size bs =
    make_streaming_peak_finder peak_queue value_queue 255 pattern_size >>= blocks bs 0

-- A peak of 100 that dominates one of 50 behind it, and then silence.
abbrev signal : List ℕ
signal = 0 ∷ 0 ∷ 0 ∷ 0 ∷ 0 ∷ 100 ∷ 0 ∷ 0 ∷ 0 ∷ 0 ∷ 0 ∷ 0 ∷ 0 ∷ 0 ∷ 50 ∷ 30 ∷ 0 ∷ []

abbrev silence : List ℕ
silence = replicate 20 0

-- In short blocks the second peak is locked out; in one long block it is reported.
stream_short_blocks : stream 21 (signal ∷ silence ∷ silence ∷ silence ∷ []) ≡ some (5 ∷ [])
unfolding stream blocks RingBuffer.drop
stream_short_blocks = refl

stream_long_block : stream 21 ((signal ++ silence ++ silence ++ silence) ∷ []) ≡ some (5 ∷ 14 ∷ [])
unfolding stream blocks RingBuffer.drop
stream_long_block = refl

-- A peak of 100 with a lower one behind it that it dominates, and a plateau far behind them.
abbrev first_run : Run
first_run = record { value = 0; more = 4 }

abbrev later_runs : List Run
later_runs =
    record { value = 100; more = 0 }
    ∷ record { value = 0; more = 5 }
    ∷ record { value = 50; more = 0 }
    ∷ record { value = 0; more = 9 }
    ∷ record { value = 60; more = 2 }
    ∷ record { value = 0; more = 9 }
    ∷ []

runs_alternate : Alternating 255 (first_run ∷ later_runs)
runs_alternate =
    let t : Alternating 0 [] = tt in
    (
      (λ e. omega arith),
      (
        (λ e. omega arith),
        (
          (λ e. omega arith),
          ((λ e. omega arith), ((λ e. omega arith), ((λ e. omega arith), ((λ e. omega arith), t)))),
        ),
      ),
    )

detect_and_isolate-Dominant_run :
    (accepted : List RawPeak) × (detect_and_isolate peak_queue value_queue 255 10 10
        (samples_of (first_run ∷ later_runs))
        0
        36
      ≡ some accepted)
    × Descending RawPeak.stream_pos (rev_onto accepted [])
    × ((p : RawPeak)
        → Memᴰ p accepted ↔ (
            Dominant 10 36
              (all_reports (pattern_size_of 10 - 2) 10 0 (fresh 255) (first_run ∷ later_runs))
              p
            × (p.stream_pos ≤ 0 + 10 → 0 < p.value)))
detect_and_isolate-Dominant_run =
    detect_and_isolate-Dominant peak_queue value_queue 255 10 10 0 36 first_run later_runs
      (omega arith) (omega arith) (omega arith) runs_alternate (omega arith) (omega arith)
      (omega arith)
