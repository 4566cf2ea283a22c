-- ===== src/Dsp/PeakFinder/Isolator/Invariant.antt =====
-- What the two queues of the isolator hold between its steps, and that the arrival of a raw peak keeps
-- it.
use v1util.Common.{
  ℕ, ◌+◌, ◌^◌, ◌≤◌, ◌<◌, ◌≡◌, refl, sym, ap, subst, ◌⊎◌, inl, inr, Bool, true, false, ltb, leb,
  ◌&&◌, List, ◌∷◌, here, Descending, arith,
}
use mathlib.Core.List.{Memᴰ}
use mathlib.Core.List.Memᴰ
use mathlib.Core.List.Memᴰ.{head, tail}
use native.Mathlib.Decide.{dec_le}
use v1util.Common.Word.{sub64, sub64_exact}
use v1util.Container.Deque.Loops.{drop_while}
use v1util.Container.Deque.Kept.{
  drop_while-Memᴰ, drop_while-kept, drop_while-guard, Descending-drop_while,
}
use v1util.Dsp.PeakFinder.Detector.{RawPeak}
use v1util.Dsp.PeakFinder.Isolator.{ValueAtPos, is_peak, is_rising}
use v1util.Dsp.PeakFinder.Isolator.Memory.{Layered, Layered-up, Layered-Memᴰ}
use v1util.Dsp.PeakFinder.Isolator.Dominance.{
  Firm, FollowsTop, History, RightDominant, LeftDominant, later, newest, same_place,
}

abbrev pub IsPeak : RawPeak → Type 0
IsPeak p = is_peak p.type ≡ true

-- An entry of the second queue that a settled peak left there.
abbrev pub Left : List RawPeak → ValueAtPos → Type 0
Left settled u =
    (d : RawPeak) × Memᴰ d settled × (d.stream_pos ≡ u.stream_pos) × (d.value ≡ u.value)

abbrev pub Locked : List ValueAtPos → ValueAtPos → Type 0
Locked locks u = Memᴰ u locks

-- The values that were in the second queue from the start are smaller, where they are within `w` samples.
abbrev pub Unlocked : ℕ → List ValueAtPos → RawPeak → Type 0
Unlocked w locks p =
    (u : ValueAtPos) → Memᴰ u locks → p.stream_pos ≤ u.stream_pos + w → u.value < p.value

-- `locks` are the values that were in the second queue from the start, `es` is the history, `right` and `left` are the queues from the back, `settled` are the peaks that
-- left the first queue, and `accepted` those reported, newest first; all up to position `now`.
pub record Inv (locks : List ValueAtPos) (w now : ℕ) (es right : List RawPeak)
    (left : List ValueAtPos) (settled accepted : List RawPeak) : Type 0 where
  pub history : History es
  pub small : (e : RawPeak) → Memᴰ e es → e.stream_pos + 1 < 2 ^ 63
  pub past : (e : RawPeak) → Memᴰ e es → e.stream_pos ≤ now
  pub right_in : (c : RawPeak) → Memᴰ c right → Memᴰ c es × Firm c × RightDominant w es c
  pub right_desc : Descending RawPeak.stream_pos right
  pub settled_in :
      (c : RawPeak)
      → Memᴰ c settled
      → Memᴰ c es × Firm c × RightDominant w es c × (c.stream_pos + w ≤ now)
  pub below : (d c : RawPeak) → Memᴰ d settled → Memᴰ c right → d.stream_pos < c.stream_pos
  pub cover :
      (c : RawPeak) → Memᴰ c es → Firm c → RightDominant w es c → Memᴰ c right ⊎ Memᴰ c settled
  pub lock_first :
      (u : ValueAtPos) → Memᴰ u locks → (e : RawPeak) → Memᴰ e es → u.stream_pos ≤ e.stream_pos
  pub lock_past : (u : ValueAtPos) → Memᴰ u locks → u.stream_pos ≤ now
  pub left_layered : Layered (Left settled) (Locked locks) (now + 1) left
  -- Settled peaks more than `w` before this position may be forgotten.
  pub limit : ℕ
  pub limit_right : (c : RawPeak) → Memᴰ c right → limit ≤ c.stream_pos
  pub limit_now : limit ≤ now
  pub left_cover :
      (d : ValueAtPos)
      → Left settled d ⊎ Locked locks d
      → ((v : ValueAtPos) × Memᴰ v left × (d.stream_pos ≤ v.stream_pos) × (d.value ≤ v.value))
        ⊎ (d.stream_pos + w < limit)
  pub accepted_in :
      (p : RawPeak)
      → Memᴰ p accepted
      → Memᴰ p settled × IsPeak p × LeftDominant w es p × Unlocked w locks p
  pub accepted_all :
      (p : RawPeak)
      → Memᴰ p settled
      → IsPeak p
      → LeftDominant w es p
      → Unlocked w locks p
      → Memᴰ p accepted
  pub accepted_desc : Descending RawPeak.stream_pos accepted

pub Left-origin :
    {locks : List ValueAtPos} {w now : ℕ} {es right : List RawPeak} {left : List ValueAtPos}
    {settled accepted : List RawPeak}
    → Inv locks w now es right left settled accepted
    → (u : ValueAtPos) → Memᴰ u left
    → Left settled u ⊎ Locked locks u
Left-origin {locks} {now = now} {left = left} {settled = settled} v u i =
    elim (Layered-Memᴰ (Left settled) (Locked locks) (now + 1) left u v.left_layered i) [
      | inl (o, lt) ↦ inl o
      | inr (o, le) ↦ inr o
    ]

pub left_past :
    {locks : List ValueAtPos} {w now : ℕ} {es right : List RawPeak} {left : List ValueAtPos}
    {settled accepted : List RawPeak}
    → Inv locks w now es right left settled accepted
    → (u : ValueAtPos) → Memᴰ u left
    → u.stream_pos ≤ now
left_past v u i = elim (Left-origin v u i) [
  | inl (d, j, a, b) ↦ let (k, n, r, old) = v.settled_in d j in omega arith
  | inr j ↦ v.lock_past u j
]

-- The test of the loop at the back of the first queue.
abbrev pub smaller_near : ℕ → RawPeak → RawPeak → Bool
smaller_near w x c = ltb c.value x.value && leb (sub64 x.stream_pos c.stream_pos) w

module _ (w : ℕ) (x c : RawPeak) (le : c.stream_pos ≤ x.stream_pos)
    (small : x.stream_pos + 1 < 2 ^ 63) where
  smaller_near-true :
      smaller_near w x c ≡ true → (c.value < x.value) × (x.stream_pos ≤ c.stream_pos + w)
  smaller_near-true h =
      let e = sub64_exact x.stream_pos c.stream_pos (omega arith) le in ground arith

  smaller_near-false :
      smaller_near w x c ≡ false → x.stream_pos ≤ c.stream_pos + w → x.value ≤ c.value
  smaller_near-false h =
      let e = sub64_exact x.stream_pos c.stream_pos (omega arith) le in ground arith

-- A raw peak that is too late or too small for `d` leaves it dominant.
RightDominant-cons :
    (w : ℕ) (x d : RawPeak) (es : List RawPeak)
    → RightDominant w es d
    → (x.stream_pos ≤ d.stream_pos + w → x.value ≤ d.value)
    → RightDominant w (x ∷ es) d
RightDominant-cons w x d es h g e i a b = elim (Memᴰ.cases_cons i) [
  | inl q ↦ subst (λ k. k.stream_pos ≤ d.stream_pos + w → k.value ≤ d.value) (sym q) g b
  | inr j ↦ h e j a b
]

-- A later raw peak does not count on the left.
LeftDominant-cons :
    (w : ℕ) (x p : RawPeak) (es : List RawPeak)
    → p.stream_pos ≤ x.stream_pos
    → LeftDominant w es p
    → LeftDominant w (x ∷ es) p
LeftDominant-cons w x p es le h e i n a b = elim (Memᴰ.cases_cons i) [
  | inl q ↦ absurd (omega (arith, ap RawPeak.stream_pos q))
  | inr j ↦ h e j n a b
]

abbrev pub push_unless : Bool → RawPeak → List RawPeak → List RawPeak
push_unless true x xs = xs
push_unless false x xs = x ∷ xs

abbrev pub arrive_right : ℕ → RawPeak → List RawPeak → List RawPeak
arrive_right w x right = push_unless (is_rising x.type) x (drop_while (smaller_near w x) right)

module _ (x : RawPeak) (xs : List RawPeak) where
  push_unless-Memᴰ :
      (b : Bool) (c : RawPeak) → Memᴰ c (push_unless b x xs) → ((c ≡ x) × (b ≡ false)) ⊎ Memᴰ c xs
  push_unless-Memᴰ true c i = inr i
  push_unless-Memᴰ false c i = elim (Memᴰ.cases_cons i) [ inl q ↦ inl (q, refl) | inr j ↦ inr j ]

  push_unless-new : (b : Bool) → b ≡ false → Memᴰ x (push_unless b x xs)
  push_unless-new true e = absurd (cc)
  push_unless-new false e = here x xs

  push_unless-old : (b : Bool) (c : RawPeak) → Memᴰ c xs → Memᴰ c (push_unless b x xs)
  push_unless-old true c i = i
  push_unless-old false c i = tail i

  push_unless-desc :
      (b : Bool)
      → Descending RawPeak.stream_pos xs
      → ((c : RawPeak) → Memᴰ c xs → c.stream_pos < x.stream_pos)
      → Descending RawPeak.stream_pos (push_unless b x xs)
  push_unless-desc true d h = d
  push_unless-desc false d h = (h, d)

module _ {locks : List ValueAtPos} {w now : ℕ} {es right : List RawPeak} {left : List ValueAtPos}
    {settled accepted : List RawPeak} (v : Inv locks w now es right left settled accepted)
    (x : RawPeak) (follows : FollowsTop x es) (small : x.stream_pos + 1 < 2 ^ 63)
    (le : now ≤ x.stream_pos)
    (harmless : (d : RawPeak)
      → Memᴰ d es
      → RightDominant w es d
      → d.stream_pos + w ≤ now
      → x.stream_pos ≤ d.stream_pos + w
      → x.value ≤ d.value) where
  open v use {
    history, past, right_in, right_desc, settled_in, below, cover, accepted_in, accepted_all,
  }

  kept_dominant :
      (c : RawPeak) → Memᴰ c (drop_while (smaller_near w x) right) → RightDominant w (x ∷ es) c
  kept_dominant c i =
      let j = drop_while-Memᴰ (smaller_near w x) right c i in
      let (y, k, keeps, near) =
        drop_while-guard (smaller_near w x) RawPeak.stream_pos right c right_desc i in
      let (ky, ny, ry) = right_in y k in
      let (kc, nc, rc) = right_in c j in
      let py = past y ky in
      RightDominant-cons w x c es rc (λ far.
        let a = smaller_near-false w x y (omega arith) small keeps (omega arith) in
        elim (dec_le y.stream_pos c.stream_pos) [
          | yes t ↦ let e = same_place es c y history kc ky nc ny (omega arith) in omega arith
          | no t ↦ let e = rc y ky (omega arith) (omega arith) in omega arith
        ])

  settled_dominant : (d : RawPeak) → Memᴰ d settled → RightDominant w (x ∷ es) d
  settled_dominant d i =
      let (k, n, r, old) = settled_in d i in RightDominant-cons w x d es r (harmless d k r old)

  arrive_right_in :
      (c : RawPeak)
      → Memᴰ c (arrive_right w x right)
      → Memᴰ c (x ∷ es) × Firm c × RightDominant w (x ∷ es) c
  arrive_right_in c i =
      elim (push_unless-Memᴰ x (drop_while (smaller_near w x) right) (is_rising x.type) c i) [
        | inl (q, n) ↦ (
          head q,
          subst Firm (sym q) n,
          λ e j a b.
              absurd (omega (arith, newest x es e (follows, history) j, ap RawPeak.stream_pos q)),
        )
        | inr j ↦
            let (k, n, r) = right_in c (drop_while-Memᴰ (smaller_near w x) right c j) in
            (tail k, n, kept_dominant c j)
      ]

  arrive_cover :
      (c : RawPeak)
      → Memᴰ c (x ∷ es)
      → Firm c
      → RightDominant w (x ∷ es) c
      → Memᴰ c (arrive_right w x right) ⊎ Memᴰ c settled
  arrive_cover c i n r = elim (Memᴰ.cases_cons i) [
    | inl q ↦ inl (
        subst (λ k. Memᴰ k (arrive_right w x right)) (sym q)
          (push_unless-new x (drop_while (smaller_near w x) right) (is_rising x.type)
            (subst Firm q n)))
    | inr j ↦ elim (cover c j n (λ e k. r e (tail k))) [
      | inr k ↦ inr k
      | inl k ↦ elim (drop_while-kept (smaller_near w x) right c k) [
        | inl m ↦ inl (push_unless-old x _ (is_rising x.type) c m)
        | inr t ↦
            let (a, b) = smaller_near-true w x c (omega (arith, past c j)) small t in
            let lt = (later x es c (follows, history) j).1 n in
            absurd (omega (arith, r x (here x es) lt b))
      ]
    ]
  ]

  arrive_desc : Descending RawPeak.stream_pos (arrive_right w x right)
  arrive_desc =
      push_unless-desc x _ (is_rising x.type)
        (Descending-drop_while (smaller_near w x) RawPeak.stream_pos right right_desc)
        (λ c i.
          let (k, n, r) = right_in c (drop_while-Memᴰ (smaller_near w x) right c i) in
          (later x es c (follows, history) k).1 n)

  -- A raw peak that does not spoil a settled one keeps the invariant.
  pub arrive : Inv locks w x.stream_pos (x ∷ es) (arrive_right w x right) left settled accepted
  arrive = record {
    history = (follows, history);
    small = λ e i. elim (Memᴰ.cases_cons i) [
      | inl q ↦ omega (arith, ap RawPeak.stream_pos q)
      | inr j ↦ v.small e j
    ];
    past = λ e i. newest x es e (follows, history) i;
    right_in = arrive_right_in;
    right_desc = arrive_desc;
    settled_in = λ d i.
        let (k, n, r, old) = settled_in d i in (tail k, n, settled_dominant d i, omega arith);
    below = λ d c i j. elim (push_unless-Memᴰ x _ (is_rising x.type) c j) [
      | inl (q, n) ↦
          let (k, m, r, old) = settled_in d i in
          let lt = (later x es d (follows, history) k).1 m in omega (arith, ap RawPeak.stream_pos q)
      | inr k ↦ below d c i (drop_while-Memᴰ (smaller_near w x) right c k)
    ];
    cover = arrive_cover;
    lock_first = λ u i e j. elim (Memᴰ.cases_cons j) [
      | inl q ↦ omega (arith, v.lock_past u i, ap RawPeak.stream_pos q)
      | inr k ↦ v.lock_first u i e k
    ];
    lock_past = λ u i. omega (arith, v.lock_past u i);
    left_layered =
        Layered-up (Left settled) (Locked locks) (now + 1) (x.stream_pos + 1) left (omega arith)
          v.left_layered;
    limit = v.limit;
    limit_right = λ c i. elim (push_unless-Memᴰ x _ (is_rising x.type) c i) [
      | inl (q, n) ↦ omega (arith, ap RawPeak.stream_pos q, v.limit_now)
      | inr k ↦ v.limit_right c (drop_while-Memᴰ (smaller_near w x) right c k)
    ];
    limit_now = omega (arith, v.limit_now);
    left_cover = v.left_cover;
    accepted_in = λ p i.
        let (k, t, l, free) = accepted_in p i in
        let (m, n, r, old) = settled_in p k in
        (k, t, LeftDominant-cons w x p es (omega arith) l, free);
    accepted_all = λ p i t l. accepted_all p i t (λ e j. l e (tail j));
    accepted_desc = v.accepted_desc;
  }
