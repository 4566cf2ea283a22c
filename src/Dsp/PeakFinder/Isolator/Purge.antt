-- ===== src/Dsp/PeakFinder/Isolator/Purge.antt =====
-- What a purge of the isolator reports.
use v1util.Common.{
  ℕ, ◌+◌, ◌-◌, ◌*◌, ◌^◌, ◌≤◌, ◌<◌, ◌≡◌, refl, sym, subst, ◌∙◌, ◌↔◌, inl, inr, true, false, Option,
  some, List, [], ◌∷◌, ◌++◌, is_nil-snoc, Memᴰ-last, rev_onto, Descending, unsnoc, ◌>>=◌, ◌>>◌,
  v1_assert, arith,
}
use mathlib.Core.List.{Memᴰ}
use native.Mathlib.Decide.{dec_lt}
use v1util.Common.Word.{word, sub64, sub64_exact}
use v1util.Base.Math.{ring_greater_eq}
use v1util.Base.Math.Ring.{wrapping_sub-round}
use v1util.Container.Deque.{Deque}
use v1util.Container.Deque.Loops.{pop_front_while, pop_front_while-Holds}
use v1util.Dsp.PeakFinder.Detector.{RawPeak, PeakType, peak, rising, falling}
use v1util.Dsp.PeakFinder.Isolator.{
  ValueAtPos, Isolator, is_peak, is_rising, clean_isolator, purge_old, purge_up_until,
}
use v1util.Dsp.PeakFinder.Isolator.Dominance.{RightDominant, LeftDominant}
use v1util.Dsp.PeakFinder.Isolator.Invariant.{Inv, IsPeak, Unlocked, left_past}
use v1util.Dsp.PeakFinder.Isolator.Early.{clean_isolator-young}
use v1util.Dsp.PeakFinder.Isolator.Wait.{outdated, wait}
use v1util.Dsp.PeakFinder.Isolator.Events.{Returns, clean_isolator-Returns, ring_greater_eq-after}

-- The peaks of `es` that dominate all raw peaks within `w` samples, and are `w` samples old at `now`.
abbrev pub Dominant : ℕ → ℕ → List RawPeak → RawPeak → Type 0
Dominant w now es p =
    Memᴰ p es × IsPeak p × RightDominant w es p × LeftDominant w es p × (p.stream_pos + w ≤ now)

-- The accepted peaks are the dominant ones that no value which was there from the start locks out.
abbrev pub Exact : List ValueAtPos → ℕ → ℕ → List RawPeak → List RawPeak → Type 0
Exact locks w now es accepted =
    (p : RawPeak) → Memᴰ p accepted ↔ (Dominant w now es p × Unlocked w locks p)

peak_firm : (t : PeakType) → is_peak t ≡ true → is_rising t ≡ false
peak_firm peak e = refl
peak_firm rising e = absurd (cc)
peak_firm falling e = refl

pub Inv-Exact :
    {locks : List ValueAtPos} {w now : ℕ} {es right settled accepted : List RawPeak}
    {left : List ValueAtPos}
    → Inv locks w now es right left settled accepted
    → (end : ℕ) → now ≤ end
    → ((c : RawPeak) → Memᴰ c right → end < c.stream_pos + w)
    → Exact locks w end es accepted
Inv-Exact v end le young p = (
  (λ i.
      let (k, t, d, free) = v.accepted_in p i in
      let (m, n, r, old) = v.settled_in p k in ((m, t, r, d, omega arith), free)),
  (λ ((i, t, r, d, old), free). elim (v.cover p i (peak_firm p.type t) r) [
    | inl j ↦ absurd (omega (arith, young p j))
    | inr j ↦ v.accepted_all p j t d free
  ]),
)

pub ring_greater_eq-before : (a b : ℕ) → a < b → b < 2 ^ 63 → ring_greater_eq 63 a b ≡ false
unfolding ring_greater_eq
ring_greater_eq-before a b lt small =
    let e = wrapping_sub-round 63 {a = a} {b = b} (omega arith) lt in ground arith

pub ring_greater_eq-purge :
    (a w : ℕ) → a + w + 1 < 2 ^ 63 → ring_greater_eq 63 a (sub64 (word - 1) w) ≡ true
unfolding ring_greater_eq
ring_greater_eq-purge a w small =
    let e = wrapping_sub-round 63 {a = a} {b = word - 1 - w} (omega arith) (omega arith) in
    let f = sub64_exact (word - 1) w (omega arith) (omega arith) in rw f (ground arith)

module _ (q : Deque RawPeak) (l : Deque ValueAtPos) where
  -- A purge that returns, and the peaks that are reported with it.
  pub record Purged (m : Option (List RawPeak × Isolator q l)) (locks : List ValueAtPos) (w end : ℕ)
      (es accepted : List RawPeak) : Type 0 where
    pub reports : List RawPeak
    pub state : Isolator q l
    pub returns : m ≡ some (reports, state)
    pub exact : Exact locks w end es (rev_onto reports accepted)
    pub once : Descending RawPeak.stream_pos (rev_onto reports accepted)

  from_Returns :
      {m : Option (List RawPeak × Isolator q l)} {locks : List ValueAtPos} {w end last_purge : ℕ}
      {es accepted : List RawPeak}
      → Returns q l m locks w end last_purge es accepted
      → Purged m locks w end es accepted
  from_Returns {end = end} r = record {
    reports = r.reports;
    state = r.state;
    returns = r.returns;
    exact = Inv-Exact r.ready.inv end (omega arith) r.ready.fresh;
    once = r.ready.inv.accepted_desc;
  }

  purge_old-nil :
      (s : Isolator q l) (end : ℕ) {m : Option (List RawPeak × Isolator q l)}
      → l.empty s.left_dominance_memory ≡ true
      → clean_isolator q l end s ≡ m
      → purge_old q l end s ≡ m
  unfolding purge_old
  purge_old-nil s end a e = rw (a, purge_old) e

  purge_old-next :
      (s : Isolator q l) (end : ℕ) {u : ValueAtPos} {d : l.Carrier}
      {m : Option (List RawPeak × Isolator q l)}
      → l.empty s.left_dominance_memory ≡ false
      → l.front s.left_dominance_memory ≡ some u
      → ring_greater_eq 63 end u.stream_pos ≡ true
      → pop_front_while l
          (outdated s.window_size end)
          (l.size s.left_dominance_memory + 1)
          s.left_dominance_memory
        ≡ some d
      → clean_isolator q l end (record s { left_dominance_memory = d }) ≡ m
      → purge_old q l end s ≡ m
  unfolding purge_old
  purge_old-next s end a b c d e = rw (a, purge_old, b, ◌>>=◌, c, ◌>>◌, v1_assert, d, ◌>>=◌) e

  module _ {locks : List ValueAtPos} {w now : ℕ} {es right settled accepted : List RawPeak}
      (s : Isolator q l) (end : ℕ) (window : s.window_size ≡ w)
      (hr : q.Holds (2 * w + 1) s.right_dominant_peaks right) (positive : 0 < w) (le : now ≤ end)
      (small : end + w + 1 < 2 ^ 63)
      (recent : (c : RawPeak) → Memᴰ c right → end ≤ c.stream_pos + 2 * w + 1) where
    -- Where the limit of the loop on the left memory wraps, no peak is old enough yet.
    young-Purged :
        {left : List ValueAtPos} (s' : Isolator q l)
        → s'.window_size ≡ w
        → q.Holds (2 * w + 1) s'.right_dominant_peaks right
        → Inv locks w now es right left settled accepted
        → word ≤ 3 * w + 1
        → ((m : Option (List RawPeak × Isolator q l))
            → clean_isolator q l end s' ≡ m
            → purge_old q l end s ≡ m)
        → Purged (purge_old q l end s) locks w end es accepted
    young-Purged s' window' hr' v wraps goes = record {
      reports = [];
      state = s';
      returns = goes _ (
          clean_isolator-young q l end s' right window' hr'
            (λ c i. let (k, n, d) = v.right_in c i in let a = v.past c k in omega arith)
            (omega arith));
      exact = Inv-Exact v end le (λ c i. omega arith);
      once = v.accepted_desc;
    }

    purge_old-empty :
        l.Holds (2 * w + 1) s.left_dominance_memory []
        → Inv locks w now es right [] settled accepted
        → Purged (purge_old q l end s) locks w end es accepted
    purge_old-empty hl v = elim (dec_lt (3 * w + 1) word) [
      | no wraps ↦
          young-Purged s window hr v (omega arith) (λ m. purge_old-nil s end (l.empty-Holds [] hl))
      | yes fits ↦
          let done = from_Returns (
            clean_isolator-Returns q l s positive (omega arith) window hr hl
              (wait v end le (omega arith) fits recent)) in
          record {
            reports = done.reports;
            state = done.state;
            returns = purge_old-nil s end (l.empty-Holds [] hl) done.returns;
            exact = done.exact;
            once = done.once;
          }
    ]

    purge_old-snoc :
        (us : List ValueAtPos) (u : ValueAtPos)
        → l.Holds (2 * w + 1) s.left_dominance_memory (us ++ u ∷ [])
        → Inv locks w now es right (us ++ u ∷ []) settled accepted
        → Purged (purge_old q l end s) locks w end es accepted
    purge_old-snoc us u hl v =
        let before = left_past v u (Memᴰ-last us u) in
        let (d, pops, hl') =
          pop_front_while-Holds l (outdated w end) (l.size s.left_dominance_memory + 1) (2 * w + 1)
            s.left_dominance_memory (us ++ u ∷ []) hl (omega (arith, l.size-Holds hl)) in
        let s' : Isolator q l = record s { left_dominance_memory = d } in
        let goes : (m : Option (List RawPeak × Isolator q l))
            → clean_isolator q l end s' ≡ m
            → purge_old q l end s ≡ m =
          λ m.
            purge_old-next s end (l.empty-Holds _ hl ∙ is_nil-snoc us u) (l.front-Holds us u hl)
              (ring_greater_eq-after end u.stream_pos (omega arith) (omega arith))
              (subst
                (λ k.
                  pop_front_while l (outdated k end) (l.size s.left_dominance_memory + 1)
                    s.left_dominance_memory
                  ≡ some d)
                (sym window) pops) in
        elim (dec_lt (3 * w + 1) word) [
          | no wraps ↦ young-Purged s' window hr v (omega arith) goes
          | yes fits ↦
              let done = from_Returns (
                clean_isolator-Returns q l s' positive (omega arith) window hr hl'
                  (wait v end le (omega arith) fits recent)) in
              record {
                reports = done.reports;
                state = done.state;
                returns = goes _ done.returns;
                exact = done.exact;
                once = done.once;
              }
        ]

    pub purge_old-Purged :
        (left : List ValueAtPos)
        → l.Holds (2 * w + 1) s.left_dominance_memory left
        → Inv locks w now es right left settled accepted
        → Purged (purge_old q l end s) locks w end es accepted
    purge_old-Purged [] hl v = purge_old-empty hl v
    purge_old-Purged (u ∷ us) hl v =
        let (ys, y, e) = unsnoc (u ∷ us) (omega arith) in
        purge_old-snoc ys y (subst (l.Holds (2 * w + 1) s.left_dominance_memory) e hl)
          (subst (λ z. Inv locks w now es right z settled accepted) e v)

  abbrev pub marked : ℕ → Isolator q l → Isolator q l
  marked end s = record s { last_purge_stream_pos = end }

  module _ (s : Isolator q l) (end : ℕ)
      (allowed : ring_greater_eq 63 end (sub64 s.last_purge_stream_pos s.window_size) ≡ true) where
    pub purge-nil :
        q.empty s.right_dominant_peaks ≡ true
        → ring_greater_eq 63 end end ≡ true
        → purge_up_until q l end s ≡ some ([], marked end s)
    unfolding purge_up_until
    purge-nil a b = rw (allowed, ◌>>◌, v1_assert, a, ◌>>=◌, b)

    pub purge-early :
        {c : RawPeak}
        → q.empty s.right_dominant_peaks ≡ false
        → q.back s.right_dominant_peaks ≡ some c
        → ring_greater_eq 63 c.stream_pos end ≡ true
        → purge_up_until q l end s ≡ some ([], marked end s)
    unfolding purge_up_until
    purge-early a b c = rw (allowed, ◌>>◌, v1_assert, a, b, ◌>>=◌, c)

    pub purge-late :
        {c : RawPeak} {m : Option (List RawPeak × Isolator q l)}
        → q.empty s.right_dominant_peaks ≡ false
        → q.back s.right_dominant_peaks ≡ some c
        → ring_greater_eq 63 c.stream_pos end ≡ false
        → purge_old q l end (marked end s) ≡ m
        → purge_up_until q l end s ≡ m
    unfolding purge_up_until
    purge-late a b c d = rw (allowed, ◌>>◌, v1_assert, a, b, ◌>>=◌, c) d
