-- ===== src/Dsp/PeakFinder/Streaming.antt =====
-- `StreamingPeakFinder` of dsp/peakfinder.hpp: the raw peak detector feeds the dominant peak isolator. The
-- calls of `handlePeak` are the list of the peaks that it is called with.
pub mod Follows
pub mod Positions
pub mod Peaks
pub mod Process
pub mod Tests
use v1util.Common.{
  ℕ, ◌+◌, ◌*◌, ◌/◌, ltb, leb, if◌then◌else◌, Bool, true, false, Option, none, some, List, [], ◌∷◌,
  ◌++◌, length, ◌>>=◌, ◌>>◌, v1_assert,
}
use v1util.Common.Word.{add64, sub64}
use v1util.Container.Deque.{Deque}
use v1util.Dsp.PeakFinder.Detector.{
  RawPeak, Detector, make_detector, process, current_plateau_size, current_plateau_value,
}
use v1util.Dsp.PeakFinder.Isolator.{
  ValueAtPos, Isolator, make_isolator, add_lockout_for_initial_value, youngest_raw_peak_value,
  on_raw_peak_event, purge_up_until,
}

abbrev pub pattern_size_of : ℕ → ℕ
pattern_size_of lockout_distance = 2 * lockout_distance + 1

module _ (q : Deque RawPeak) (l : Deque ValueAtPos) where
  pub record StreamingPeakFinder : Type 0 where
    pub lockout_distance : ℕ
    pub is_subsequent_block : Bool
    pub peak_detector : Detector
    pub dominant_peak_isolator : Isolator q l

  -- `max_value` is `std::numeric_limits<Value>::max()`.
  unfoldable pub make_streaming_peak_finder : ℕ → ℕ → Option StreamingPeakFinder
  make_streaming_peak_finder max_value pattern_size = do
    let lockout_distance = pattern_size / 2
    detector ← make_detector max_value (sub64 (pattern_size_of lockout_distance) 2)
    isolator ← make_isolator q l lockout_distance
    some (record {
      lockout_distance = lockout_distance;
      is_subsequent_block = false;
      peak_detector = detector;
      dominant_peak_isolator = isolator;
    })

  unfoldable pub reconfigure : ℕ → ℕ → StreamingPeakFinder → Option StreamingPeakFinder
  reconfigure max_value pattern_size s = make_streaming_peak_finder max_value pattern_size

  -- `data.front()` of the first block, which needs a sample.
  unfoldable pub begin_stream : List ℕ → ℕ → StreamingPeakFinder → Option StreamingPeakFinder
  begin_stream [] stream_pos s = if s.is_subsequent_block then some s else none
  begin_stream (sample ∷ samples) stream_pos s = if s.is_subsequent_block then some s else (do
    isolator ←
        add_lockout_for_initial_value q l (record { stream_pos = stream_pos; value = sample })
          s.dominant_peak_isolator
    some (record s { is_subsequent_block = true; dominant_peak_isolator = isolator }))

  -- The raw peaks of a block go to the isolator, once the delay of each is checked.
  unfoldable pub isolate :
      ℕ → ℕ → List RawPeak → Isolator q l → Option (List RawPeak × Isolator q l)
  isolate delay_limit new_stream_pos [] s = some ([], s)
  isolate delay_limit new_stream_pos (p ∷ ps) s = do
    v1_assert (leb (sub64 new_stream_pos p.stream_pos) delay_limit)
    (accepted, s') ← on_raw_peak_event q l p s
    (more, s'') ← isolate delay_limit new_stream_pos ps s'
    some (accepted ++ more, s'')

  unfoldable pub peak_detector_delay : Detector → Isolator q l → Option ℕ
  peak_detector_delay d s = do
    youngest ← youngest_raw_peak_value q l s
    some ((if ltb youngest (current_plateau_value d) then current_plateau_size d else 0) + 1)

  unfoldable pub process_block :
      List ℕ → ℕ → ℕ → StreamingPeakFinder → Option (List RawPeak × StreamingPeakFinder)
  process_block samples stream_pos_at_start peak_threshold s = do
    let new_stream_pos = add64 stream_pos_at_start (length samples)
    s' ← begin_stream samples stream_pos_at_start s
    (raw_peaks, detector) ← process samples stream_pos_at_start peak_threshold s'.peak_detector
    (accepted, isolator) ←
        isolate (add64 (add64 (sub64 (pattern_size_of s'.lockout_distance) 2) 1) (length samples))
          new_stream_pos raw_peaks s'.dominant_peak_isolator
    delay ← peak_detector_delay detector isolator
    (more, isolator') ← purge_up_until q l (sub64 new_stream_pos delay) isolator
    some (
      accepted ++ more,
      record s' { peak_detector = detector; dominant_peak_isolator = isolator' },
    )
