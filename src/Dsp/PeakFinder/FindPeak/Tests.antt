-- ===== src/Dsp/PeakFinder/FindPeak/Tests.antt =====
-- Peaks of concrete sequences.
use v1util.Common.{
  ℕ, ◌+◌, ◌/◌, ◌≡◌, refl, ◌||◌, if◌then◌else◌, true, some, List, [], ◌∷◌, length, is_nil, ltb, suc,
  arith,
}
use v1util.Dsp.PeakFinder.FindPeak.{
  find_peak, max_element, left_edge, right_edge, walk_left, walk_right, is_plateau_too_long,
}
use v1util.Dsp.PeakFinder.FindPeak.Plateau.{Below, Descends, with_plateau}
use v1util.Dsp.PeakFinder.FindPeak.TooLong.{is_plateau_too_long-plateau}
use v1util.Dsp.PeakFinder.FindPeak.Correct.{find_peak-plateau}

abbrev samples : List ℕ
samples = 1 ∷ 3 ∷ 7 ∷ 7 ∷ 7 ∷ 7 ∷ 2 ∷ 7 ∷ 5 ∷ []

find_peak_run : find_peak samples ≡ some 3
unfolding find_peak max_element left_edge right_edge walk_left walk_right
find_peak_run = refl

falling_run : find_peak (5 ∷ 4 ∷ 3 ∷ []) ≡ some 3
unfolding find_peak max_element left_edge right_edge walk_left walk_right
falling_run = refl

is_plateau_too_long_run : is_plateau_too_long samples 3 3 ≡ some true
unfolding is_plateau_too_long left_edge walk_left walk_right
is_plateau_too_long_run = refl

abbrev lower : List ℕ
lower = 1 ∷ 3 ∷ []

abbrev rest : List ℕ
rest = 2 ∷ 7 ∷ 5 ∷ []

samples-Below : Below 7 lower
samples-Below = (omega arith, (omega arith, tt))

samples-Descends : Descends 7 rest
samples-Descends = (omega arith, (omega arith, (omega arith, tt)))

find_peak-plateau_example :
    find_peak (with_plateau lower 7 3 rest)
    ≡ some (
        if is_nil lower || is_nil rest
        then length (with_plateau lower 7 3 rest)
        else length lower + 3 / 2)
find_peak-plateau_example = find_peak-plateau lower 7 3 rest samples-Below samples-Descends

is_plateau_too_long-plateau_example :
    is_plateau_too_long (with_plateau lower 7 (2 + 1) rest) (length lower + 2) 3
    ≡ some (ltb 3 (suc (2 + 1)))
is_plateau_too_long-plateau_example =
    is_plateau_too_long-plateau lower 7 rest 2 1 3 samples-Below samples-Descends
