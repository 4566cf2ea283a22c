-- ===== src/Dsp/PeakFinder/FindPeak/Plateau.antt =====
-- `findPeak` on a sequence that is cut at its first plateau of largest elements.
use v1util.Common.{
  ℕ, zero, suc, ◌+◌, ◌<◌, ◌≤◌, ◌≡◌, refl, sym, subst, ◌∙◌, ◌==◌, ltb, lt→ltb, true, false, some,
  List, [], ◌∷◌, ◌++◌, append_assoc, length, length-append, replicate, get_elem?, get_elem?-append,
  Bool-cases, inl, inr, unsnoc, arith,
}
use v1util.Dsp.PeakFinder.FindPeak.{max_element_from, max_element, walk_left, left_edge}

abbrev pub Below : ℕ → List ℕ → Type 0
Below m [] = Unit
Below m (x ∷ xs) = (x < m) × Below m xs

abbrev pub AtMost : ℕ → List ℕ → Type 0
AtMost m [] = Unit
AtMost m (x ∷ xs) = (x ≤ m) × AtMost m xs

-- What follows the plateau starts below it.
abbrev pub Descends : ℕ → List ℕ → Type 0
Descends m [] = Unit
Descends m (x ∷ xs) = (x < m) × AtMost m xs

-- `suc more` largest elements behind `before`.
abbrev pub with_plateau : List ℕ → ℕ → ℕ → List ℕ → List ℕ
with_plateau before m more behind = before ++ (m ∷ (replicate more m ++ behind))

max_element_from-AtMost :
    (at best i : ℕ) (xs : List ℕ) → AtMost best xs → max_element_from at best i xs ≡ at
max_element_from-AtMost at best i [] h = refl
max_element_from-AtMost at best i (x ∷ xs) h =
    let no : ltb best x ≡ false = ground (arith, h.0) in
    rw no (max_element_from-AtMost at best (i + 1) xs h.1)

max_element_from-Below :
    (at best i m : ℕ) (before rest : List ℕ)
    → best < m
    → Below m before
    → AtMost m rest
    → max_element_from at best i (before ++ m ∷ rest) ≡ i + length before
max_element_from-Below at best i m [] rest h b r =
    rw (lt→ltb best m h) (max_element_from-AtMost i m (i + 1) rest r ∙ omega arith)
max_element_from-Below at best i m (x ∷ before) rest h b r =
    let e : i + suc (length before) ≡ i + 1 + length before = omega arith in
    elim (Bool-cases (ltb best x)) [
      | inl p ↦ rw (p, e) (max_element_from-Below i x (i + 1) m before rest b.0 b.1 r)
      | inr p ↦ rw (p, e) (max_element_from-Below at best (i + 1) m before rest h b.1 r)
    ]

replicate-AtMost :
    (m k : ℕ) (behind : List ℕ) → Descends m behind → AtMost m (replicate k m ++ behind)
replicate-AtMost m zero [] d = d
replicate-AtMost m zero (x ∷ behind) d = (omega (arith, d.0), d.1)
replicate-AtMost m (suc k) behind d = (omega arith, replicate-AtMost m k behind d)

pub max_element-plateau :
    (before : List ℕ) (m more : ℕ) (behind : List ℕ)
    → Below m before
    → Descends m behind
    → max_element (with_plateau before m more behind) ≡ length before
unfolding max_element
max_element-plateau [] m more behind b d =
    max_element_from-AtMost 0 m 1 (replicate more m ++ behind) (replicate-AtMost m more behind d)
max_element-plateau (x ∷ before) m more behind b d =
    max_element_from-Below 0 x 1 m before (replicate more m ++ behind) b.0 b.1
      (replicate-AtMost m more behind d)
    ∙ omega arith

pub same_test : (m : ℕ) → (m == m) ≡ true
same_test m = ground arith

pub below_test : {x m : ℕ} → x < m → (x == m) ≡ false
below_test h = ground arith

Below-last : (m : ℕ) (ys : List ℕ) (y : ℕ) → Below m (ys ++ y ∷ []) → y < m
Below-last m [] y h = h.0
Below-last m (x ∷ ys) y h = Below-last m ys y h.1

-- One step left from behind `y`, which is no part of the plateau.
walk_left-stop :
    (values : List ℕ) (m i y : ℕ)
    → get_elem? values i ≡ some y
    → (y == m) ≡ false
    → walk_left values m i ≡ some i
unfolding walk_left
walk_left-stop values m zero y e n = refl
walk_left-stop values m (suc i) y e n = rw (e, n)

left_edge-snoc :
    (ys : List ℕ) (y m : ℕ) (rest : List ℕ)
    → y < m
    → left_edge ((ys ++ y ∷ []) ++ m ∷ rest) m (suc (length ys)) ≡ some (suc (length ys))
unfolding left_edge walk_left
left_edge-snoc ys y m rest h =
    let values : List ℕ = (ys ++ y ∷ []) ++ m ∷ rest in
    let here : get_elem? values (suc (length ys)) ≡ some m =
      get_elem?-append (suc (length ys)) (ys ++ y ∷ []) m rest
        (omega (arith, length-append ys (y ∷ []))) in
    let there : get_elem? values (length ys) ≡ some y =
      rw (append_assoc) (get_elem?-append (length ys) ys y (m ∷ rest) refl) in
    let next : length ys + 1 ≡ suc (length ys) = omega arith in
    let stop = walk_left-stop values m (length ys) y there (below_test h) in
    rw (here, same_test m, stop, there, below_test h, next)

pub left_edge-plateau :
    (before : List ℕ) (m : ℕ) (rest : List ℕ)
    → Below m before
    → left_edge (before ++ m ∷ rest) m (length before) ≡ some (length before)
unfolding left_edge walk_left
left_edge-plateau [] m rest b = rw (same_test m)
left_edge-plateau (x ∷ before) m rest b =
    let (ys, y, e) = unsnoc (x ∷ before) (omega arith) in
    let len : length (ys ++ y ∷ []) ≡ suc (length ys) = length-append ys (y ∷ []) ∙ omega arith in
    let at : ℕ → Type 0 = λ n. left_edge ((ys ++ y ∷ []) ++ m ∷ rest) m n ≡ some n in
    subst (λ z. left_edge (z ++ m ∷ rest) m (length z) ≡ some (length z)) (sym e)
      (subst at (sym len) (left_edge-snoc ys y m rest (Below-last m ys y (subst (Below m) e b))))
