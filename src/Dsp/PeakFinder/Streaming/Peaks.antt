-- ===== src/Dsp/PeakFinder/Streaming/Peaks.antt =====
-- The detector and the isolator coupled: the dominant peaks of a stream.
use v1util.Common.{
  ℕ, none, ◌+◌, ◌-◌, ◌*◌, ◌^◌, ◌<◌, ◌≤◌, ◌≡◌, ◌↔◌, Option, some, List, [], ◌∷◌, length, rev_onto,
  Descending, ◌>>=◌, arith,
}
use mathlib.Core.List.{Memᴰ}
use v1util.Common.Word.{word}
use v1util.Container.Deque.{Deque}
use v1util.Dsp.PeakFinder.Detector.{RawPeak, make_detector, process}
use v1util.Dsp.PeakFinder.Detector.Runs.{Run, samples_of, Alternating, all_reports}
use v1util.Dsp.PeakFinder.Detector.Reports.{fresh, process-reports}
use v1util.Dsp.PeakFinder.Isolator.{ValueAtPos, isolate_from}
use v1util.Dsp.PeakFinder.Isolator.Calls.{newest_pos}
use v1util.Dsp.PeakFinder.Isolator.Purge.{Dominant}
use v1util.Dsp.PeakFinder.Isolator.Correct.{isolate_from-Dominant}
use v1util.Dsp.PeakFinder.Streaming.{pattern_size_of}
use v1util.Dsp.PeakFinder.Streaming.Positions.{Within-Starts, all_reports-Within}
use v1util.Dsp.PeakFinder.Streaming.Follows.{all_reports-Continues}

-- `data.front()`
abbrev front_of : List ℕ → Option ℕ
front_of [] = none
front_of (sample ∷ samples) = some sample

module _ (q : Deque RawPeak) (l : Deque ValueAtPos) where
  -- A new detector with the plateau limit of the peak finder, and a new isolator with the first sample's
  -- value in its memory, on a whole stream.
  unfoldable pub detect_and_isolate : ℕ → ℕ → ℕ → List ℕ → ℕ → ℕ → Option (List RawPeak)
  detect_and_isolate max_value lockout_distance threshold samples pos end = do
    first ← front_of samples
    detector ← make_detector max_value (pattern_size_of lockout_distance - 2)
    (raw_peaks, detector') ← process samples pos threshold detector
    isolate_from q l lockout_distance (record { stream_pos = pos; value = first }) raw_peaks end

  -- For a lockout distance `w` from 1 up whose queues fit into the words, a stream of at least one run at
  -- positions below 2 ^ 63 - 1 whose first sample is not the largest value, and a purge at the newest raw
  -- peak, or at the first sample if there is none, or up to `w + 1` behind it: no assertion of the detector
  -- or the isolator fires, and the accepted peaks are in ascending order and exactly the dominant ones, old
  -- enough at the purge, of the raw peaks that the description by plateaus gives, but for those within `w`
  -- samples of the stream's start that do not exceed the first sample.
  pub detect_and_isolate-Dominant :
      (max_value w threshold pos end : ℕ) (r : Run) (rs : List Run)
      → 0 < w
      → 2 * w + 2 < word
      → pos + length (samples_of (r ∷ rs)) + 1 < 2 ^ 63
      → Alternating max_value (r ∷ rs)
      → newest_pos pos
          (all_reports (pattern_size_of w - 2) threshold pos (fresh max_value) (r ∷ rs))
        ≤ end
      → end
        ≤ newest_pos pos
            (all_reports (pattern_size_of w - 2) threshold pos (fresh max_value) (r ∷ rs))
          + w
          + 1
      → end + w + 1 < 2 ^ 63
      → (accepted : List RawPeak) × (detect_and_isolate max_value w threshold
            (samples_of (r ∷ rs))
            pos
            end
          ≡ some accepted)
        × Descending RawPeak.stream_pos (rev_onto accepted [])
        × ((p : RawPeak)
            → Memᴰ p accepted ↔ (
                Dominant w end
                  (all_reports (pattern_size_of w - 2) threshold pos (fresh max_value) (r ∷ rs))
                  p
                × (p.stream_pos ≤ pos + w → r.value < p.value)))
  unfolding detect_and_isolate
  detect_and_isolate-Dominant max_value w threshold pos end r rs positive fits room alt le soon
        small =
      let limit = pattern_size_of w - 2 in
      let (d, d', made, processed, rest) =
        process-reports max_value limit threshold pos (r ∷ rs) (omega arith) (omega arith)
          (omega arith) alt in
      let raw = all_reports limit threshold pos (fresh max_value) (r ∷ rs) in
      let continues =
        all_reports-Continues limit threshold (r ∷ rs) pos (fresh max_value) [] tt room tt in
      let n = length (samples_of (r ∷ rs)) in
      let begins = Within-Starts pos (pos + n) raw (
        all_reports-Within limit threshold pos (r ∷ rs) pos (pos + n) (fresh max_value)
          (omega arith) (omega arith)) in
      let (accepted, isolated, once, exact) =
        isolate_from-Dominant q l w (record { stream_pos = pos; value = r.value }) raw end positive
          fits continues begins le soon small in
      (accepted, rw (made, ◌>>=◌, processed, ◌>>=◌) isolated, once, exact)
