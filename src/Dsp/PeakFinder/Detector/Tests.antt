-- ===== src/Dsp/PeakFinder/Detector/Tests.antt =====
-- Runs of the raw peak detector.
use v1util.Common.{ℕ, ◌≡◌, refl, Option, some, List, [], ◌∷◌, ◌++◌, length, map, ◌>>=◌, arith}
use v1util.Common.Word.{add64, sub64}
use v1util.Dsp.PeakFinder.Detector.{
  RawPeak, Detector, first_sample_marker, make_detector, process, scan, scan_step, on_sample,
  on_falling, current_plateau_size,
}
use v1util.Dsp.PeakFinder.Detector.Blocks.{process-append}
use v1util.Dsp.PeakFinder.Detector.Runs.{Run, samples_of, last, all_reports, Alternating}
use v1util.Dsp.PeakFinder.Detector.Reports.{process-reports, open_size, fresh}

-- A plateau of three samples, one of five, which is too long, and a rise at the end.
abbrev runs : List Run
runs =
    record { value = 2; more = 0 }
    ∷ record { value = 7; more = 2 }
    ∷ record { value = 1; more = 0 }
    ∷ record { value = 9; more = 4 }
    ∷ record { value = 3; more = 0 }
    ∷ record { value = 5; more = 1 }
    ∷ []

abbrev detector : Detector
detector = record {
  too_big_plateau_size = 5;
  last_value = 255;
  current_plateau_size = first_sample_marker;
}

runs_alternate : Alternating 255 runs
runs_alternate =
    let t : Alternating 5 [] = tt in
    (
      (λ e. omega arith),
      (
        (λ e. omega arith),
        ((λ e. omega arith), ((λ e. omega arith), ((λ e. omega arith), ((λ e. omega arith), t)))),
      ),
    )

abbrev positions : List RawPeak × Detector → Option (List ℕ)
positions (peaks, d) = some (map RawPeak.stream_pos peaks)

process_run :
    (process (samples_of runs) 100 3 detector >>= positions)
    ≡ some (101 ∷ 102 ∷ 103 ∷ 105 ∷ 109 ∷ 111 ∷ [])
unfolding process scan scan_step on_sample on_falling add64 sub64
process_run = refl

process-append_example : process (samples_of runs ++ samples_of runs) 100 3 detector ≡ (
    process (samples_of runs) 100 3 detector >>= λ (peaks, d).
    process (samples_of runs) (add64 100 (length (samples_of runs))) 3 d >>= λ (more, d').
    some (peaks ++ more, d'))
process-append_example =
    process-append (samples_of runs) (samples_of runs) 100 3 detector (omega arith)

process-reports_example :
    (d end : Detector) × (make_detector 255 4 ≡ some d)
    × (process (samples_of runs) 100 3 d ≡ some (all_reports 4 3 100 (fresh 255) runs, end))
    × (current_plateau_size end ≡ open_size 4 (last (fresh 255) runs))
process-reports_example =
    process-reports 255 4 3 100 runs (omega arith) (omega arith) (omega arith) runs_alternate
