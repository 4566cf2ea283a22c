-- ===== src/Dsp/PeakFinder/FindPeak.antt =====
-- `findPeak` and `isPlateauTooLong` of dsp/peakfinder.hpp over a sequence; an iterator is an index, and
-- `none` a read that is out of range.
pub mod Plateau
pub mod Correct
pub mod TooLong
pub mod Tests
use v1util.Common.{
  ℕ, zero, suc, ◌+◌, ◌-◌, ◌/◌, ◌==◌, ltb, if◌then◌else◌, Bool, true, false, not, ◌&&◌, ◌||◌, Option,
  none, some, List, [], ◌∷◌, length, get_elem?, ◌>>=◌,
}

-- `std::max_element`: the index of the first largest element. `best` is the largest element so far,
-- at `at`, and `i` the next index.
abbrev pub max_element_from : ℕ → ℕ → ℕ → List ℕ → ℕ
max_element_from at best i [] = at
max_element_from at best i (x ∷ xs) =
    if ltb best x then max_element_from i x (i + 1) xs else max_element_from at best (i + 1) xs

unfoldable pub max_element : List ℕ → ℕ
max_element [] = 0
max_element (x ∷ xs) = max_element_from 0 x 1 xs

module _ (values : List ℕ) (max_value : ℕ) where
  -- `while(i != iBegin && *i == maxValue) --i;`
  unfoldable pub walk_left : ℕ → Option ℕ
  walk_left zero = some zero
  walk_left (suc i) =
      let rest = walk_left i in
      do x ← get_elem? values (suc i); (if x == max_value then rest else some (suc i))

  -- `while(i != iEnd && *i == maxValue) ++i;`, with fuel.
  unfoldable pub walk_right : ℕ → ℕ → Option ℕ
  walk_right zero i = none
  walk_right (suc fuel) i =
      let rest = walk_right fuel (i + 1) in
      if i == length values
      then some i
      else (do x ← get_elem? values i; (if x == max_value then rest else some i))

  -- The first element of the plateau round `i`: the walk, and a step back unless it ended inside.
  unfoldable pub left_edge : ℕ → Option ℕ
  left_edge i = do
    edge ← walk_left i
    x ← get_elem? values edge
    some (if not (x == max_value) then edge + 1 else edge)

-- The test for `*iRightEdge` after `||` reads only before the end.
unfoldable pub right_edge : List ℕ → ℕ → ℕ → Option ℕ
right_edge values max_value i = do
  edge ← walk_right values max_value (length values + 1) (i + 1)
  if edge == length values
      then some (edge - 1)
      else (do x ← get_elem? values edge; some (if not (x == max_value) then edge - 1 else edge))

unfoldable pub find_peak : List ℕ → Option ℕ
find_peak values =
    let i_max = max_element values in
    if i_max == length values then some (length values) else (do
      max_value ← get_elem? values i_max
      left ← left_edge values max_value i_max
      right ← right_edge values max_value i_max
      some (
          if left == 0 || right + 1 == length values
          then length values
          else left + (right - left) / 2))

unfoldable pub is_plateau_too_long : List ℕ → ℕ → ℕ → Option Bool
is_plateau_too_long values i_peak max_plateau_size = do
  peak_value ← get_elem? values i_peak
  plateau_begin ← left_edge values peak_value i_peak
  plateau_end ← walk_right values peak_value (length values + 1) (i_peak + 1)
  some (ltb max_plateau_size (plateau_end - plateau_begin))
