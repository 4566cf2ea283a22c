-- ===== src/Dsp/PeakFinder/Isolator/Steps.antt =====
-- The steps of the isolator over deques that keep the laws of the interface, against the invariant.
use v1util.Common.{
  ℕ, zero, suc, ◌+◌, ◌^◌, ◌≤◌, ◌<◌, ◌≡◌, refl, sym, ap, subst, ◌∙◌, inl, inr, if◌then◌else◌, Bool,
  true, false, ◌&&◌, Option, some, List, [], ◌∷◌, ◌++◌, is_nil, is_nil-snoc, length, length-append,
  unsnoc, Bool-cases, Memᴰ-last, Descending-cut, rev_onto, rev_onto-append, ◌>>=◌, arith,
}
use mathlib.Core.List.{Memᴰ}
use mathlib.Core.List.Memᴰ
use v1util.Common.Word.{sub64_exact}
use v1util.Container.Deque.{Deque}
use v1util.Container.Deque.Loops.{trim, pop_back_while-Holds, pop_front_while-Holds}
use v1util.Dsp.PeakFinder.Detector.{RawPeak}
use v1util.Dsp.PeakFinder.Isolator.{
  ValueAtPos, value_at_pos, is_peak, check_left_dominance, clean_old, old_enough,
}
use v1util.Dsp.PeakFinder.Isolator.Invariant.{Inv}
use v1util.Dsp.PeakFinder.Isolator.Settle.{
  expired, smaller, larger_near, report_if, settle, length-larger_near,
}

module _ (q : Deque RawPeak) (l : Deque ValueAtPos) where
  rev_onto-report :
      (b : Bool) (p : RawPeak) (ps : List RawPeak)
      → rev_onto (if b then p ∷ [] else []) ps ≡ report_if b p ps
  rev_onto-report true p ps = refl
  rev_onto-report false p ps = refl

  check_left_dominance-Holds :
      (w limit : ℕ) (c : RawPeak) (d : l.Carrier) (left : List ValueAtPos)
      → l.Holds limit d left
      → length (larger_near w c left) < limit
      → (d' : l.Carrier) × (check_left_dominance q l w c d
          ≡ some ((if is_peak c.type && is_nil (larger_near w c left) then c ∷ [] else []), d'))
        × l.Holds limit d' (value_at_pos c ∷ larger_near w c left)
  unfolding check_left_dominance
  check_left_dominance-Holds w limit c d left h room =
      let (d₁, e₁, h₁) =
        pop_front_while-Holds l (expired w c) (l.size d + 1) limit d left h
          (omega (arith, l.size-Holds h)) in
      let (d₂, e₂, h₂) =
        pop_back_while-Holds l (smaller c) (l.size d₁ + 1) limit d₁ (trim (expired w c) left) h₁
          (omega (arith, l.size-Holds h₁)) in
      let (d₃, e₃, h₃) = l.push_back-Holds (value_at_pos c) h₂ room in
      (d₃, rw (e₁, e₂, l.empty-Holds (larger_near w c left) h₂, e₃), h₃)

  -- The peaks that wait are younger than `w`.
  abbrev pub Fresh : ℕ → ℕ → List RawPeak → Type 0
  Fresh w now right = (c : RawPeak) → Memᴰ c right → now < c.stream_pos + w

  -- The loop returns, keeps the invariant, and leaves no peak that is old enough to be settled.
  pub record Cleaned (m : Option (List RawPeak × q.Carrier × l.Carrier)) (locks : List ValueAtPos)
      (w limit now : ℕ) (es accepted : List RawPeak) : Type 0 where
    pub reports : List RawPeak
    pub right_deque : q.Carrier
    pub left_deque : l.Carrier
    pub right : List RawPeak
    pub left : List ValueAtPos
    pub settled : List RawPeak
    pub returns : m ≡ some (reports, right_deque, left_deque)
    pub right_Holds : q.Holds limit right_deque right
    pub left_Holds : l.Holds limit left_deque left
    pub inv : Inv locks w now es right left settled (rev_onto reports accepted)
    pub fresh : Fresh w now right

  old_enough-true :
      (w now : ℕ) (c : RawPeak)
      → c.stream_pos ≤ now
      → now < 2 ^ 63
      → old_enough w now c ≡ true
      → c.stream_pos + w ≤ now
  unfolding old_enough
  old_enough-true w now c le small h =
      let e = sub64_exact now c.stream_pos (omega arith) le in ground arith

  old_enough-false :
      (w now : ℕ) (c : RawPeak)
      → c.stream_pos ≤ now
      → now < 2 ^ 63
      → old_enough w now c ≡ false
      → now < c.stream_pos + w
  unfolding old_enough
  old_enough-false w now c le small h =
      let e = sub64_exact now c.stream_pos (omega arith) le in ground arith

  clean_old-next :
      (w now : ℕ) (fuel : ℕ) {rd rd' rd'' : q.Carrier} (ld : l.Carrier) {ld' ld'' : l.Carrier}
      {c : RawPeak} {now_reported more : List RawPeak}
      → q.empty rd ≡ false
      → q.front rd ≡ some c
      → old_enough w now c ≡ true
      → check_left_dominance q l w c ld ≡ some (now_reported, ld')
      → q.pop_front rd ≡ some rd'
      → clean_old q l fuel w now rd' ld' ≡ some (more, rd'', ld'')
      → clean_old q l (suc fuel) w now rd ld ≡ some (now_reported ++ more, rd'', ld'')
  unfolding clean_old
  clean_old-next w now fuel ld a b c d e f = rw (a, clean_old, b, ◌>>=◌, c, d, e, f)

  module _ (w limit now : ℕ) (small : now < 2 ^ 63) (room : w + 1 < limit) where
    clean_old-step :
        {locks : List ValueAtPos} {es settled accepted : List RawPeak} (fuel : ℕ) (rd : q.Carrier)
        (ld : l.Carrier) (ys : List RawPeak) (c : RawPeak) {left : List ValueAtPos}
        → q.Holds limit rd (ys ++ c ∷ [])
        → l.Holds limit ld left
        → Inv locks w now es (ys ++ c ∷ []) left settled accepted
        → ((rd' : q.Carrier) (ld' : l.Carrier) (left' : List ValueAtPos)
              (settled' accepted' : List RawPeak)
            → q.Holds limit rd' ys
            → l.Holds limit ld' left'
            → Inv locks w now es ys left' settled' accepted'
            → Cleaned (clean_old q l fuel w now rd' ld') locks w limit now es accepted')
        → Cleaned (clean_old q l (suc fuel) w now rd ld) locks w limit now es accepted
    unfolding clean_old
    clean_old-step {locks} {es} {settled} {accepted} fuel rd ld ys c {left} hr hl v rest =
        let at_most = v.past c (v.right_in c (Memᴰ-last ys c)).0 in
        let some_left : q.empty rd ≡ false = q.empty-Holds _ hr ∙ is_nil-snoc ys c in
        elim (Bool-cases (old_enough w now c)) [
          | inr young ↦ record {
            reports = [];
            right_deque = rd;
            left_deque = ld;
            right = ys ++ c ∷ [];
            left = left;
            settled = settled;
            returns = rw (some_left, clean_old, q.front-Holds ys c hr, ◌>>=◌, young);
            right_Holds = hr;
            left_Holds = hl;
            inv = v;
            fresh = λ d i.
                let first = old_enough-false w now c at_most small young in
                elim (Memᴰ.append_cases ys i) [
                  | inl j ↦
                      let lt = (Descending-cut RawPeak.stream_pos ys c v.right_desc).1 d j in
                      omega arith
                  | inr j ↦ omega (arith, ap RawPeak.stream_pos (Memᴰ.eq_of_singleton j))
                ];
          }
          | inl old ↦
              let old' : c.stream_pos + w ≤ now = old_enough-true w now c at_most small old in
              let b = is_peak c.type && is_nil (larger_near w c left) in
              let (ld', checks, hl') =
                check_left_dominance-Holds w limit c ld left hl
                  (omega (arith, length-larger_near ys c v old')) in
              let (rd', pops, hr') = q.pop_front-Holds ys c hr in
              let done =
                rest rd' ld' _ (c ∷ settled) (report_if b c accepted) hr' hl'
                  (settle ys c v old') in
              record {
                reports = (if b then c ∷ [] else []) ++ done.reports;
                right_deque = done.right_deque;
                left_deque = done.left_deque;
                right = done.right;
                left = done.left;
                settled = done.settled;
                returns =
                    clean_old-next w now fuel ld some_left (q.front-Holds ys c hr) old checks pops
                      done.returns;
                right_Holds = done.right_Holds;
                left_Holds = done.left_Holds;
                inv =
                    subst (Inv locks w now es done.right done.left done.settled)
                      (sym (
                        rev_onto-append (if b then c ∷ [] else []) done.reports accepted
                        ∙ ap (rev_onto done.reports) (rev_onto-report b c accepted)))
                      done.inv;
                fresh = done.fresh;
              }
        ]

    pub clean_old-Cleaned :
        {locks : List ValueAtPos} {es settled accepted : List RawPeak} (fuel : ℕ) (rd : q.Carrier)
        (ld : l.Carrier) (right : List RawPeak) {left : List ValueAtPos}
        → length right < fuel
        → q.Holds limit rd right
        → l.Holds limit ld left
        → Inv locks w now es right left settled accepted
        → Cleaned (clean_old q l fuel w now rd ld) locks w limit now es accepted
    unfolding clean_old
    clean_old-Cleaned zero rd ld right h hr hl v = absurd (omega arith)
    clean_old-Cleaned {settled = settled} (suc fuel) rd ld [] {left} h hr hl v = record {
      reports = [];
      right_deque = rd;
      left_deque = ld;
      right = [];
      left = left;
      settled = settled;
      returns = rw (q.empty-Holds [] hr, clean_old);
      right_Holds = hr;
      left_Holds = hl;
      inv = v;
      fresh = λ c i. absurd (Memᴰ.not-nil i);
    }
    clean_old-Cleaned {locks} {es} {settled} {accepted} (suc fuel) rd ld (x ∷ xs) {left} h hr hl v =
        let (ys, c, e) = unsnoc (x ∷ xs) (omega arith) in
        let shorter : length ys < fuel = omega (arith, ap length e, length-append ys (c ∷ [])) in
        clean_old-step fuel rd ld ys c (subst (q.Holds limit rd) e hr) hl
          (subst (λ r. Inv locks w now es r left settled accepted) e v)
          (λ rd' ld' left' settled' accepted' hr' hl' v'.
            clean_old-Cleaned fuel rd' ld' ys shorter hr' hl' v')
