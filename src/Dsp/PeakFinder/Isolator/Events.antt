-- ===== src/Dsp/PeakFinder/Isolator/Events.antt =====
-- One raw peak event of the isolator.
use v1util.Common.{
  ℕ, ◌+◌, ◌-◌, ◌*◌, ◌^◌, ◌≤◌, ◌<◌, ◌≡◌, refl, sym, subst, inl, inr, if◌then◌else◌, Bool, true,
  false, Option, some, List, [], ◌∷◌, length, here, length-Descending, rev_onto, ◌>>=◌, arith,
}
use mathlib.Core.List.{Memᴰ}
use mathlib.Core.List.Memᴰ
use v1util.Common.Word.{word}
use v1util.Base.Math.{ring_greater_eq}
use v1util.Base.Math.Ring.{wrapping_sub-up, wrapping_sub-round}
use v1util.Container.Deque.{Deque}
use v1util.Container.Deque.Loops.{drop_while, pop_back_while, pop_back_while-Holds}
use v1util.Container.Deque.Kept.{drop_while-Memᴰ, Descending-drop_while}
use v1util.Dsp.PeakFinder.Detector.{RawPeak}
use v1util.Dsp.PeakFinder.Isolator.{
  ValueAtPos, Isolator, is_rising, clean_old, clean_isolator, enqueue,
}
use v1util.Dsp.PeakFinder.Isolator.Dominance.{Follows, FollowsTop, RightDominant}
use v1util.Dsp.PeakFinder.Isolator.Invariant.{Inv, arrive, push_unless, smaller_near}
use v1util.Dsp.PeakFinder.Isolator.Steps.{Fresh, clean_old-Cleaned}

pub ring_greater_eq-after : (a b : ℕ) → b ≤ a → a < 2 ^ 63 → ring_greater_eq 63 a b ≡ true
unfolding ring_greater_eq
ring_greater_eq-after a b le small =
    let e = wrapping_sub-up 63 {a = a} {b = b} (omega arith) le in ground arith

-- The position before the first one.
pub ring_greater_eq-start : (a : ℕ) → a + 1 < 2 ^ 63 → ring_greater_eq 63 a (word - 1) ≡ true
unfolding ring_greater_eq
ring_greater_eq-start a small =
    let e = wrapping_sub-round 63 {a = a} {b = word - 1} (omega arith) (omega arith) in ground arith

-- The time is that of the newest raw peak, if there is one.
abbrev pub AtTop : ℕ → List RawPeak → Type 0
AtTop now [] = Unit {0}
AtTop now (x ∷ xs) = now ≡ x.stream_pos

pub Follows-le : (x y : RawPeak) → Follows x y → y.stream_pos ≤ x.stream_pos
Follows-le x y f = elim f [ inl g ↦ omega (arith, g.0) | inr g ↦ omega (arith, g.0) ]

-- A raw peak at the distance of exactly `w` from a dominant one repeats the newest, which is not larger.
AtTop-harmless :
    (w now : ℕ) (x : RawPeak) (es : List RawPeak)
    → 0 < w
    → AtTop now es
    → FollowsTop x es
    → (d : RawPeak) → Memᴰ d es
    → RightDominant w es d
    → d.stream_pos + w ≤ now
    → x.stream_pos ≤ d.stream_pos + w
    → x.value ≤ d.value
AtTop-harmless w now x [] p t f d i r old near = absurd (Memᴰ.not-nil i)
AtTop-harmless w now x (y ∷ es) p t f d i r old near = elim f [
  | inl g ↦ absurd (omega (arith, g.0))
  | inr g ↦ let v = r y (here y es) (omega (arith, g.0)) (omega (arith, g.0)) in omega (arith, g.3)
]

module _ (q : Deque RawPeak) (l : Deque ValueAtPos) where
  -- The isolator with the queues that the invariant speaks of.
  pub record Ready (s : Isolator q l) (locks : List ValueAtPos) (w now : ℕ)
      (es accepted : List RawPeak) : Type 0 where
    pub right : List RawPeak
    pub left : List ValueAtPos
    pub settled : List RawPeak
    pub window : s.window_size ≡ w
    pub right_Holds : q.Holds (2 * w + 1) s.right_dominant_peaks right
    pub left_Holds : l.Holds (2 * w + 1) s.left_dominance_memory left
    pub inv : Inv locks w now es right left settled accepted
    pub fresh : Fresh q l w now right

  -- A call that returns and leaves the isolator ready.
  pub record Returns (m : Option (List RawPeak × Isolator q l)) (locks : List ValueAtPos)
      (w now last_purge : ℕ) (es accepted : List RawPeak) : Type 0 where
    pub reports : List RawPeak
    pub state : Isolator q l
    pub returns : m ≡ some (reports, state)
    pub ready : Ready state locks w now es (rev_onto reports accepted)
    pub purged : state.last_purge_stream_pos ≡ last_purge

  clean_isolator-eq :
      (w now : ℕ) (s : Isolator q l) {reports : List RawPeak} {rd : q.Carrier} {ld : l.Carrier}
      → s.window_size ≡ w
      → clean_old q l
          (q.size s.right_dominant_peaks + 1)
          w
          now
          s.right_dominant_peaks
          s.left_dominance_memory
        ≡ some (reports, rd, ld)
      → clean_isolator q l now s
        ≡ some (reports, record s { right_dominant_peaks = rd; left_dominance_memory = ld })
  unfolding clean_isolator
  clean_isolator-eq w now s e h = rw (e, h, ◌>>=◌)

  enqueue-eq :
      (x : RawPeak) (s : Isolator q l) {d₁ d₂ : q.Carrier} {reports : List RawPeak}
      {s' : Isolator q l}
      → pop_back_while q
          (smaller_near s.window_size x)
          (q.size s.right_dominant_peaks + 1)
          s.right_dominant_peaks
        ≡ some d₁
      → (if is_rising x.type then some d₁ else q.push_back x d₁) ≡ some d₂
      → clean_isolator q l x.stream_pos (record s { right_dominant_peaks = d₂ })
        ≡ some (reports, s')
      → enqueue q l x s ≡ some (reports, s')
  unfolding enqueue
  enqueue-eq x s a b c = rw (a, ◌>>=◌, b, ◌>>=◌) c

  pub clean_isolator-Returns :
      {locks : List ValueAtPos} {w now : ℕ} {es right settled accepted : List RawPeak}
      {left : List ValueAtPos} (s : Isolator q l)
      → 0 < w
      → now < 2 ^ 63
      → s.window_size ≡ w
      → q.Holds (2 * w + 1) s.right_dominant_peaks right
      → l.Holds (2 * w + 1) s.left_dominance_memory left
      → Inv locks w now es right left settled accepted
      → Returns (clean_isolator q l now s) locks w now s.last_purge_stream_pos es accepted
  clean_isolator-Returns {locks} {w} {now} {right = right} s positive small e hr hl v =
      let done =
        clean_old-Cleaned q l w (2 * w + 1) now small (omega arith)
          (q.size s.right_dominant_peaks + 1) s.right_dominant_peaks s.left_dominance_memory right
          (omega (arith, q.size-Holds hr)) hr hl v in
      record {
        reports = done.reports;
        state = record s {
          right_dominant_peaks = done.right_deque;
          left_dominance_memory = done.left_deque;
        };
        returns = clean_isolator-eq w now s e done.returns;
        ready = record {
          right = done.right;
          left = done.left;
          settled = done.settled;
          window = e;
          right_Holds = done.right_Holds;
          left_Holds = done.left_Holds;
          inv = done.inv;
          fresh = done.fresh;
        };
        purged = refl;
      }

  -- The peaks that wait leave room for one more.
  waiting_room :
      {s : Isolator q l} {locks : List ValueAtPos} {w now : ℕ} {es accepted : List RawPeak}
      (x : RawPeak) (r : Ready s locks w now es accepted)
      → length (drop_while (smaller_near w x) r.right) ≤ w
  waiting_room {w = w} {now = now} x r =
      let v = r.inv in
      let n =
        length-Descending RawPeak.stream_pos (now + 1 - w) (now + 1) _
          (Descending-drop_while (smaller_near w x) RawPeak.stream_pos r.right v.right_desc)
          (λ c i. omega (arith, r.fresh c (drop_while-Memᴰ (smaller_near w x) r.right c i)))
          (λ c i.
            let k = v.right_in c (drop_while-Memᴰ (smaller_near w x) r.right c i) in
            omega (arith, v.past c k.0)) in
      omega arith

  push_unless-Holds :
      {limit : ℕ} {d : q.Carrier} {xs : List RawPeak} (b : Bool) (x : RawPeak)
      → q.Holds limit d xs
      → length xs < limit
      → (d' : q.Carrier) × ((if b then some d else q.push_back x d) ≡ some d')
        × q.Holds limit d' (push_unless b x xs)
  push_unless-Holds {d = d} true x h room = (d, refl, h)
  push_unless-Holds false x h room = q.push_back-Holds x h room

  pub enqueue-Returns :
      {locks : List ValueAtPos} {w now : ℕ} {es accepted : List RawPeak} (x : RawPeak)
      (s : Isolator q l)
      → 0 < w
      → Ready s locks w now es accepted
      → AtTop now es
      → FollowsTop x es
      → now ≤ x.stream_pos
      → x.stream_pos + 1 < 2 ^ 63
      → Returns (enqueue q l x s) locks w x.stream_pos s.last_purge_stream_pos (x ∷ es) accepted
  enqueue-Returns {locks} {w} {now} {es} {accepted} x s positive r top follows le small =
      let (d₁, e₁, h₁) =
        pop_back_while-Holds q (smaller_near w x) (q.size s.right_dominant_peaks + 1) (2 * w + 1)
          s.right_dominant_peaks r.right r.right_Holds
          (omega (arith, q.size-Holds r.right_Holds)) in
      let (d₂, e₂, h₂) =
        push_unless-Holds (is_rising x.type) x h₁ (omega (arith, waiting_room x r)) in
      let v = arrive r.inv x follows small le (AtTop-harmless w now x es positive top follows) in
      let s' : Isolator q l = record s { right_dominant_peaks = d₂ } in
      let done = clean_isolator-Returns s' positive (omega arith) r.window h₂ r.left_Holds v in
      record {
        reports = done.reports;
        state = done.state;
        returns =
            enqueue-eq x s
              (subst
                (λ k.
                  pop_back_while q (smaller_near k x) (q.size s.right_dominant_peaks + 1)
                    s.right_dominant_peaks
                  ≡ some d₁)
                (sym r.window) e₁)
              e₂ done.returns;
        ready = done.ready;
        purged = done.purged;
      }
