-- ===== src/Dsp/PeakFinder/FindPeak/TooLong.antt =====
-- `isPlateauTooLong` measures the whole plateau, from whichever of its elements it starts.
use v1util.Common.{
  ℕ, zero, suc, ◌+◌, ◌-◌, ◌≡◌, sym, ap, subst, ◌∙◌, ltb, some, List, ◌∷◌, ◌++◌, append_assoc,
  length, length-append, length-replicate, replicate, get_elem?, get_elem?-append, arith,
}
use v1util.Dsp.PeakFinder.FindPeak.{walk_left, walk_right, left_edge, is_plateau_too_long}
use v1util.Dsp.PeakFinder.FindPeak.Plateau.{
  Below, Descends, with_plateau, same_test, left_edge-plateau,
}
use v1util.Dsp.PeakFinder.FindPeak.Correct.{walk_right-plateau, length-with_plateau}

-- The plateau cut behind its element `j`.
replicate-split :
    (m j k : ℕ) (xs : List ℕ) → replicate (j + k) m ++ xs ≡ replicate j m ++ (replicate k m ++ xs)
replicate-split m zero k xs = let e : 0 + k ≡ k = omega arith in ap (λ n. replicate n m ++ xs) e
replicate-split m (suc j) k xs =
    let e : suc j + k ≡ suc (j + k) = omega arith in
    ap (λ n. replicate n m ++ xs) e ∙ ap (◌∷◌ m) (replicate-split m j k xs)

walk_left-step :
    (values : List ℕ) (m i : ℕ)
    → get_elem? values (suc i) ≡ some m
    → walk_left values m (suc i) ≡ walk_left values m i
unfolding walk_left
walk_left-step values m i e = rw (e, same_test m)

module _ (before : List ℕ) (m : ℕ) (behind : List ℕ) where
  split_after :
      (j k : ℕ)
      → with_plateau before m (j + k) behind
        ≡ (before ++ replicate (suc j) m) ++ (replicate k m ++ behind)
  split_after j k =
      ap (λ z. before ++ m ∷ z) (replicate-split m j k behind)
      ∙ sym (append_assoc before (replicate (suc j) m) (replicate k m ++ behind))

  split_at :
      (j k : ℕ)
      → with_plateau before m (j + k) behind
        ≡ (before ++ replicate j m) ++ (m ∷ (replicate k m ++ behind))
  split_at j k =
      let e : j + suc k ≡ suc (j + k) = omega arith in
      ap (λ z. before ++ z)
        (ap (λ n. replicate n m ++ behind) (sym e) ∙ replicate-split m j (suc k) behind)
      ∙ sym (append_assoc before (replicate j m) (replicate (suc k) m ++ behind))

  element :
      (j k : ℕ) → get_elem? (with_plateau before m (j + k) behind) (length before + j) ≡ some m
  element j k =
      subst (λ z. get_elem? z (length before + j) ≡ some m) (sym (split_at j k))
        (get_elem?-append (length before + j) (before ++ replicate j m) m (replicate k m ++ behind)
          (omega (arith, length-append before (replicate j m), length-replicate j m)))

  walk_left-plateau :
      (j k : ℕ)
      → walk_left (with_plateau before m (j + k) behind) m (length before + j)
        ≡ walk_left (with_plateau before m (j + k) behind) m (length before)
  walk_left-plateau zero k =
      let e : length before + 0 ≡ length before = omega arith in
      ap (walk_left (with_plateau before m (0 + k) behind) m) e
  walk_left-plateau (suc j) k =
      let e : length before + suc j ≡ suc (length before + j) = omega arith in
      let more : suc j + k ≡ j + suc k = omega arith in
      let here : get_elem? (with_plateau before m (suc j + k) behind) (suc (length before + j))
          ≡ some m =
        subst (λ n. get_elem? (with_plateau before m (suc j + k) behind) n ≡ some m) e
          (element (suc j) k) in
      let one =
        walk_left-step (with_plateau before m (suc j + k) behind) m (length before + j) here in
      ap (walk_left (with_plateau before m (suc j + k) behind) m) e
      ∙ one
      ∙ subst
          (λ n.
            walk_left (with_plateau before m n behind) m (length before + j)
            ≡ walk_left (with_plateau before m n behind) m (length before))
          (sym more) (walk_left-plateau j (suc k))

  left_edge-anywhere :
      (j k : ℕ)
      → Below m before
      → left_edge (with_plateau before m (j + k) behind) m (length before + j)
        ≡ some (length before)
  unfolding left_edge
  left_edge-anywhere j k b =
      let at_start : left_edge (with_plateau before m (j + k) behind) m (length before)
          ≡ some (length before) =
        left_edge-plateau before m (replicate (j + k) m ++ behind) b in
      rw (walk_left-plateau j k) at_start

  -- For an element `j` of a plateau of `suc (j + k)` elements `m`, with only elements below `m` before it,
  -- and behind it nothing, or an element below `m` and then none above `m`: the plateau counts as too long
  -- exactly if it has more elements than the limit; no read is out of range.
  pub is_plateau_too_long-plateau :
      (j k limit : ℕ)
      → Below m before
      → Descends m behind
      → is_plateau_too_long (with_plateau before m (j + k) behind) (length before + j) limit
        ≡ some (ltb limit (suc (j + k)))
  unfolding is_plateau_too_long
  is_plateau_too_long-plateau j k limit b d =
      let values : List ℕ = with_plateau before m (j + k) behind in
      let a : List ℕ = before ++ replicate (suc j) m in
      let len : length a ≡ length before + j + 1 =
        omega (arith, length-append before (replicate (suc j) m), length-replicate (suc j) m) in
      let end : walk_right values m (length values + 1) (length before + j + 1)
          ≡ some (length before + j + 1 + k) =
        subst (λ n. walk_right values m (length values + 1) n ≡ some (n + k)) len
          (subst (λ z. walk_right z m (length values + 1) (length a) ≡ some (length a + k))
            (sym (split_after j k))
            (walk_right-plateau a m k behind (length values + 1) d
              (omega (arith, length-with_plateau before m (j + k) behind)))) in
      let width : length before + j + 1 + k - length before ≡ suc (j + k) = omega arith in
      rw (element j k, left_edge-anywhere j k b, end, width)
