-- ===== src/Dsp/PeakFinder/FindPeak/Correct.antt =====
-- `findPeak` returns the middle of the first plateau of largest elements.
use v1util.Common.{
  ℕ, zero, suc, ◌+◌, ◌-◌, ◌/◌, ◌<◌, ◌≡◌, refl, sym, ap, subst, ◌∙◌, ◌==◌, if◌then◌else◌, true,
  false, ◌||◌, some, List, [], ◌∷◌, ◌++◌, append_assoc, length, length-append, length-replicate,
  replicate, get_elem?, get_elem?-append, is_nil, arith,
}
use v1util.Dsp.PeakFinder.FindPeak.{max_element, walk_right, right_edge, find_peak}
use v1util.Dsp.PeakFinder.FindPeak.Plateau.{
  Below, Descends, with_plateau, same_test, below_test, max_element-plateau, left_edge-plateau,
}

length-zero : (xs : List ℕ) → (length xs == 0) ≡ is_nil xs
length-zero [] = refl
length-zero (x ∷ xs) = ground arith

-- The walk over what is left of the plateau.
pub walk_right-plateau :
    (a : List ℕ) (m k : ℕ) (behind : List ℕ) (fuel : ℕ)
    → Descends m behind
    → k < fuel
    → walk_right (a ++ (replicate k m ++ behind)) m fuel (length a) ≡ some (length a + k)
unfolding walk_right
walk_right-plateau a m k behind zero d f = absurd (omega arith)
walk_right-plateau a m zero [] (suc fuel) d f =
    let e : length a + 0 ≡ length a = omega arith in
    let over : (length a == length (a ++ [])) ≡ true =
      ground (arith, length-append a (replicate 0 m)) in
    rw (over, e)
walk_right-plateau a m zero (x ∷ behind) (suc fuel) d f =
    let e : length a + 0 ≡ length a = omega arith in
    let inside : (length a == length (a ++ x ∷ behind)) ≡ false =
      ground (arith, length-append a (x ∷ behind)) in
    rw (inside, get_elem?-append (length a) a x behind refl, below_test d.0, e)
walk_right-plateau a m (suc k) behind (suc fuel) d f =
    let rest : List ℕ = replicate k m ++ behind in
    let inside : (length a == length (a ++ m ∷ rest)) ≡ false =
      ground (arith, length-append a (m ∷ rest)) in
    let further : walk_right ((a ++ m ∷ []) ++ rest) m fuel (length (a ++ m ∷ []))
        ≡ some (length (a ++ m ∷ []) + k) =
      walk_right-plateau (a ++ m ∷ []) m k behind fuel d (omega arith) in
    let len : length (a ++ m ∷ []) ≡ length a + 1 = length-append a (m ∷ []) in
    let e : length a + suc k ≡ length a + 1 + k = omega arith in
    let moved : walk_right (a ++ m ∷ rest) m fuel (length a + 1) ≡ some (length a + 1 + k) =
      subst (λ n. walk_right (a ++ m ∷ rest) m fuel n ≡ some (n + k)) len
        (subst (λ z. walk_right z m fuel (length (a ++ m ∷ [])) ≡ some (length (a ++ m ∷ []) + k))
          (append_assoc a (m ∷ []) rest) further) in
    rw (inside, get_elem?-append (length a) a m rest refl, same_test m, moved, e)

last_index : (n k : ℕ) (xs : List ℕ) → (n + k + 1 == n + suc k + length xs) ≡ is_nil xs
last_index n k [] = ground arith
last_index n k (x ∷ xs) = ground arith

pub length-with_plateau :
    (before : List ℕ) (m more : ℕ) (behind : List ℕ)
    → length (with_plateau before m more behind) ≡ length before + suc more + length behind
length-with_plateau before m more behind = omega (
  arith,
  length-append before (m ∷ (replicate more m ++ behind)),
  length-append (replicate more m) behind,
  length-replicate more m,
)

-- The end of the plateau, from its first element on.
walk_right-values :
    (before : List ℕ) (m more : ℕ) (behind : List ℕ)
    → Descends m behind
    → walk_right
        (with_plateau before m more behind)
        m
        (length (with_plateau before m more behind) + 1)
        (length before + 1)
      ≡ some (length before + suc more)
walk_right-values before m more behind d =
    let values : List ℕ = with_plateau before m more behind in
    let len : length (before ++ m ∷ []) ≡ length before + 1 = length-append before (m ∷ []) in
    let e : length before + 1 + more ≡ length before + suc more = omega arith in
    rw (sym e) (
      subst (λ n. walk_right values m (length values + 1) n ≡ some (n + more)) len
        (subst
          (λ z.
            walk_right z m (length values + 1) (length (before ++ m ∷ []))
            ≡ some (length (before ++ m ∷ []) + more))
          (append_assoc before (m ∷ []) (replicate more m ++ behind))
          (walk_right-plateau (before ++ m ∷ []) m more behind (length values + 1) d
            (omega (arith, length-with_plateau before m more behind)))))

right_edge-plateau :
    (before : List ℕ) (m more : ℕ) (behind : List ℕ)
    → Descends m behind
    → right_edge (with_plateau before m more behind) m (length before) ≡ some (length before + more)
unfolding right_edge
right_edge-plateau before m more [] d =
    let values : List ℕ = with_plateau before m more [] in
    let over : (length before + suc more == length values) ≡ true =
      ground (arith, length-with_plateau before m more []) in
    let e : length before + suc more - 1 ≡ length before + more = omega arith in
    rw (walk_right-values before m more [] d, over, e)
right_edge-plateau before m more (x ∷ behind) d =
    let values : List ℕ = with_plateau before m more (x ∷ behind) in
    let inside : (length before + suc more == length values) ≡ false =
      ground (arith, length-with_plateau before m more (x ∷ behind)) in
    let e : length before + suc more - 1 ≡ length before + more = omega arith in
    let len : length before + suc more ≡ length (before ++ m ∷ replicate more m) =
      omega (arith, length-append before (m ∷ replicate more m), length-replicate more m) in
    let next : get_elem? values (length before + suc more) ≡ some x =
      subst (λ z. get_elem? z (length before + suc more) ≡ some x)
        (append_assoc before (m ∷ replicate more m) (x ∷ behind))
        (get_elem?-append (length before + suc more) (before ++ m ∷ replicate more m) x behind
          len) in
    rw (walk_right-values before m more (x ∷ behind) d, inside, next, below_test d.0, e)

-- For a sequence of elements below `m`, then `suc more` elements `m`, then a smaller one or the end,
-- and no element above `m` later on: `findPeak` returns the middle of the plateau, or the end of the
-- sequence if the plateau touches either end of it; no read is out of range.
pub find_peak-plateau :
    (before : List ℕ) (m more : ℕ) (behind : List ℕ)
    → Below m before
    → Descends m behind
    → find_peak (with_plateau before m more behind)
      ≡ some (
          if is_nil before || is_nil behind
          then length (with_plateau before m more behind)
          else length before + more / 2)
unfolding find_peak
find_peak-plateau before m more behind b d =
    let values : List ℕ = with_plateau before m more behind in
    let at : max_element values ≡ length before = max_element-plateau before m more behind b d in
    let some_left : (length before == length values) ≡ false =
      ground (arith, length-with_plateau before m more behind) in
    let top : get_elem? values (length before) ≡ some m =
      get_elem?-append (length before) before m (replicate more m ++ behind) refl in
    let width : length before + more - length before ≡ more = omega arith in
    let first : (length before == 0) ≡ is_nil before = length-zero before in
    let last : (length before + more + 1 == length values) ≡ is_nil behind =
      ap (λ n. length before + more + 1 == n) (length-with_plateau before m more behind)
      ∙ last_index (length before) more behind in
    rw (
      at,
      some_left,
      top,
      left_edge-plateau before m (replicate more m ++ behind) b,
      right_edge-plateau before m more behind d,
      width,
      first,
      last,
    )
