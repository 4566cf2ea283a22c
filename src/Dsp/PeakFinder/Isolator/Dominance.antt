-- ===== src/Dsp/PeakFinder/Isolator/Dominance.antt =====
-- Histories of raw peaks, newest first, and which of their peaks dominate the others.
use v1util.Common.{
  ℕ, zero, suc, ◌+◌, ◌≤◌, ◌<◌, ◌≡◌, sym, ap, subst, ◌⊎◌, inl, inr, true, false, List, [], ◌∷◌,
  Bool-cases, here, arith,
}
use mathlib.Core.List.{Memᴰ}
use mathlib.Core.List.Memᴰ
use mathlib.Core.List.Memᴰ.{head, tail}
use native.Mathlib.Decide.{dec_le}
use v1util.Dsp.PeakFinder.Detector.{RawPeak}
use v1util.Dsp.PeakFinder.Isolator.{is_rising}

abbrev pub Rising : RawPeak → Type 0
Rising p = is_rising p.type ≡ true

abbrev pub Firm : RawPeak → Type 0
Firm p = is_rising p.type ≡ false

-- `x` is the next raw peak behind `y`: later and, where `y` is rising, as large at least, or the same
-- sample once more, after its rise.
abbrev pub Follows : RawPeak → RawPeak → Type 0
Follows x y =
    ((y.stream_pos < x.stream_pos) × (Rising y → y.value ≤ x.value))
    ⊎ ((y.stream_pos ≡ x.stream_pos) × Rising y × Firm x × (y.value ≡ x.value))

abbrev pub FollowsTop : RawPeak → List RawPeak → Type 0
FollowsTop x [] = Unit {0}
FollowsTop x (y ∷ ys) = Follows x y

abbrev pub History : List RawPeak → Type 0
History [] = Unit {0}
History (x ∷ xs) = FollowsTop x xs × History xs

-- No later raw peak within `w` samples is larger.
abbrev pub RightDominant : ℕ → List RawPeak → RawPeak → Type 0
RightDominant w es p =
    (e : RawPeak)
    → Memᴰ e es
    → p.stream_pos < e.stream_pos
    → e.stream_pos ≤ p.stream_pos + w
    → e.value ≤ p.value

-- Every earlier peak or slope within `w` samples is smaller.
abbrev pub LeftDominant : ℕ → List RawPeak → RawPeak → Type 0
LeftDominant w es p =
    (e : RawPeak)
    → Memᴰ e es
    → Firm e
    → e.stream_pos < p.stream_pos
    → p.stream_pos ≤ e.stream_pos + w
    → e.value < p.value

Follows-later : (x y : RawPeak) → Follows x y → y.stream_pos ≤ x.stream_pos
Follows-later x y f = elim f [ inl g ↦ omega (arith, g.0) | inr g ↦ omega (arith, g.0) ]

firm_not_rising : {A : Type 0} (p : RawPeak) → Firm p → Rising p → A
firm_not_rising p f r = absurd (cc)

Follows-Firm : (x y : RawPeak) → Follows x y → Firm y → y.stream_pos < x.stream_pos
Follows-Firm x y f n = elim f [ inl g ↦ g.0 | inr g ↦ firm_not_rising y n g.1 ]

-- The newest raw peak is not before any other, and after each that is firm.
pub later :
    (x : RawPeak) (es : List RawPeak) (y : RawPeak)
    → History (x ∷ es)
    → Memᴰ y es
    → (y.stream_pos ≤ x.stream_pos) × (Firm y → y.stream_pos < x.stream_pos)
later x [] y h i = absurd (Memᴰ.not-nil i)
later x (z ∷ es) y (f, h) i = elim (Memᴰ.cases_cons i) [
  | inl e ↦
      subst (λ k. (k.stream_pos ≤ x.stream_pos) × (Firm k → k.stream_pos < x.stream_pos)) (sym e)
        (Follows-later x z f, Follows-Firm x z f)
  | inr j ↦
      let (a, b) = later z es y h j in
      let c = Follows-later x z f in (omega arith, λ n. let d = b n in omega arith)
]

pub newest :
    (x : RawPeak) (es : List RawPeak) (y : RawPeak)
    → History (x ∷ es)
    → Memᴰ y (x ∷ es)
    → y.stream_pos ≤ x.stream_pos
newest x es y h i = elim (Memᴰ.cases_cons i) [
  | inl q ↦ omega (arith, ap RawPeak.stream_pos q)
  | inr j ↦ (later x es y h j).0
]

-- The newest raw peak is rising, with a value of `v` at least.
abbrev pub Pending : ℕ → List RawPeak → Type 0
Pending v [] = ⊥
Pending v (x ∷ xs) = Rising x × (v ≤ x.value)

-- A firm raw peak of the value of `e` at least, not before it.
abbrev Covered : List RawPeak → RawPeak → Type 0
Covered es e =
    (d : RawPeak) × Memᴰ d es × Firm d × (e.stream_pos ≤ d.stream_pos) × (e.value ≤ d.value)

Covered-later : (x : RawPeak) (es : List RawPeak) (e : RawPeak) → Covered es e → Covered (x ∷ es) e
Covered-later x es e (d, i, n, a, b) = (d, tail i, n, a, b)

value-Follows : (x y : RawPeak) → Follows x y → Rising y → y.value ≤ x.value
value-Follows x y f r = elim f [ inl g ↦ g.1 r | inr g ↦ omega (arith, g.3) ]

-- What a pending value becomes with the next raw peak.
Covered-step :
    (x z e : RawPeak) (es : List RawPeak)
    → Follows x z
    → e.stream_pos ≤ x.stream_pos
    → Rising z
    → e.value ≤ z.value
    → Covered (x ∷ z ∷ es) e ⊎ Pending e.value (x ∷ z ∷ es)
Covered-step x z e es f a r b =
    let c = value-Follows x z f r in
    elim (Bool-cases (is_rising x.type)) [
      | inl q ↦ inr (q, omega arith)
      | inr n ↦ inl (x, here x (z ∷ es), n, a, omega arith)
    ]

Covered-head :
    (x e : RawPeak) (es : List RawPeak) → e ≡ x → Covered (x ∷ es) e ⊎ Pending e.value (x ∷ es)
Covered-head x e es q = elim (Bool-cases (is_rising x.type)) [
  | inr n ↦ inl (e, head q, subst Firm (sym q) n, omega arith, omega arith)
  | inl r ↦ inr (r, subst (λ k. e.value ≤ k.value) q (omega arith))
]

covered :
    (es : List RawPeak) (e : RawPeak) → History es → Memᴰ e es → Covered es e ⊎ Pending e.value es
covered [] e h i = absurd (Memᴰ.not-nil i)
covered (x ∷ []) e h i = Covered-head x e [] (Memᴰ.eq_of_singleton i)
covered (x ∷ z ∷ es) e h i = elim (Memᴰ.cases_cons i) [
  | inl q ↦ Covered-head x e (z ∷ es) q
  | inr j ↦ elim (covered (z ∷ es) e h.1 j) [
    | inl c ↦ inl (Covered-later x (z ∷ es) e c)
    | inr p ↦ Covered-step x z e es h.0 ((later x (z ∷ es) e h j).0) p.0 p.1
  ]
]

-- Up to a firm raw peak, every earlier one is covered by a firm one.
pub covered_before :
    (es : List RawPeak) (e p : RawPeak)
    → History es
    → Memᴰ e es
    → Memᴰ p es
    → Firm p
    → e.stream_pos ≤ p.stream_pos
    → (d : RawPeak) × Memᴰ d es
      × Firm d
      × (e.stream_pos ≤ d.stream_pos)
      × (e.value ≤ d.value)
      × (d.stream_pos ≤ p.stream_pos)
covered_before [] e p h i j n le = absurd (Memᴰ.not-nil i)
covered_before (x ∷ es) e p h i j n le = elim (Memᴰ.cases_cons i) [
  | inl q ↦ elim (Memᴰ.cases_cons j) [
    | inl r ↦ (p, j, n, le, omega (arith, ap RawPeak.value q, ap RawPeak.value r), omega arith)
    | inr j' ↦ let a = (later x es p h j').1 n in absurd (omega (arith, ap RawPeak.stream_pos q))
  ]
  | inr i' ↦ elim (Memᴰ.cases_cons j) [
    | inl r ↦ elim (covered (x ∷ es) e h i) [
      | inl (d, k, m, a, b) ↦
          (d, k, m, a, b, omega (arith, newest x es d h k, ap RawPeak.stream_pos r))
      | inr u ↦ firm_not_rising x (subst Firm r n) u.0
    ]
    | inr j' ↦
        let (d, k, m, a, b, c) = covered_before es e p h.1 i' j' n le in (d, tail k, m, a, b, c)
  ]
]

-- Two firm raw peaks at one position have the same value.
pub same_place :
    (es : List RawPeak) (d p : RawPeak)
    → History es
    → Memᴰ d es
    → Memᴰ p es
    → Firm d
    → Firm p
    → d.stream_pos ≡ p.stream_pos
    → d.value ≡ p.value
same_place [] d p h i j m n e = absurd (Memᴰ.not-nil i)
same_place (x ∷ es) d p h i j m n e = elim (Memᴰ.cases_cons i) [
  | inl q ↦ elim (Memᴰ.cases_cons j) [
    | inl r ↦ cc
    | inr j' ↦ let a = (later x es p h j').1 n in absurd (omega (arith, ap RawPeak.stream_pos q))
  ]
  | inr i' ↦ elim (Memᴰ.cases_cons j) [
    | inl r ↦ let a = (later x es d h i').1 m in absurd (omega (arith, ap RawPeak.stream_pos r))
    | inr j' ↦ same_place es d p h.1 i' j' m n e
  ]
]

abbrev Dominates : ℕ → RawPeak → RawPeak → Type 0
Dominates w e p =
    (p.stream_pos < e.stream_pos) × (e.stream_pos ≤ p.stream_pos + w) × (p.value < e.value)

dominates? :
    (w : ℕ) (x p : RawPeak)
    → Dominates w x p
      ⊎ (p.stream_pos < x.stream_pos → x.stream_pos ≤ p.stream_pos + w → x.value ≤ p.value)
dominates? w x p = elim (dec_le x.value p.value) [
  | yes v ↦ inr (λ a b. v)
  | no v ↦ elim (dec_le x.stream_pos p.stream_pos) [
    | yes a ↦ inr (λ b. absurd (omega arith))
    | no a ↦ elim (dec_le x.stream_pos (p.stream_pos + w)) [
      | yes b ↦ inl (omega arith, b, omega arith)
      | no b ↦ inr (λ c d. absurd (omega arith))
    ]
  ]
]

dominated? :
    (w : ℕ) (es : List RawPeak) (p : RawPeak)
    → RightDominant w es p ⊎ ((e : RawPeak) × Memᴰ e es × Dominates w e p)
dominated? w [] p = inl (λ e i. absurd (Memᴰ.not-nil i))
dominated? w (x ∷ es) p = elim (dominated? w es p) [
  | inr (e, i, d) ↦ inr (e, tail i, d)
  | inl f ↦ elim (dominates? w x p) [
    | inl d ↦ inr (x, here x es, d)
    | inr g ↦ inl (λ e i. elim (Memᴰ.cases_cons i) [
      | inl q ↦
          subst
            (λ k. p.stream_pos < k.stream_pos → k.stream_pos ≤ p.stream_pos + w → k.value ≤ p.value)
            (sym q) g
      | inr j ↦ f e j
    ])
  ]
]

-- Where a firm raw peak left of `p` has the value of `p` at least, so has a right-dominant one that is
-- not before it.
pub climb :
    (fuel w : ℕ) (es : List RawPeak) (c p : RawPeak)
    → History es
    → Memᴰ p es
    → Firm p
    → RightDominant w es p
    → p.stream_pos ≤ c.stream_pos + fuel
    → Memᴰ c es
    → Firm c
    → c.stream_pos < p.stream_pos
    → p.value ≤ c.value
    → (d : RawPeak) × Memᴰ d es
      × Firm d
      × RightDominant w es d
      × (c.stream_pos ≤ d.stream_pos)
      × (d.stream_pos < p.stream_pos)
      × (p.value ≤ d.value)
climb zero w es c p h j n right bound i m lt le = absurd (omega arith)
climb (suc fuel) w es c p h j n right bound i m lt le = elim (dominated? w es c) [
  | inl f ↦ (c, i, m, f, omega arith, lt, le)
  | inr (e, k, (a, b, v)) ↦
      let before : e.stream_pos ≤ p.stream_pos = elim (dec_le e.stream_pos p.stream_pos) [
        | yes t ↦ t
        | no t ↦ let u = right e k (omega arith) (omega arith) in absurd (omega arith)
      ] in
      let (d, k', m', a', v', b') = covered_before es e p h k j n before in
      let strict : d.stream_pos < p.stream_pos = elim (dec_le p.stream_pos d.stream_pos) [
        | yes t ↦ let u = same_place es d p h k' j m' n (omega arith) in absurd (omega arith)
        | no t ↦ omega arith
      ] in
      let (g, k₂, m₂, f₂, a₂, b₂, v₂) =
        climb fuel w es d p h j n right (omega arith) k' m' strict (omega arith) in
      (g, k₂, m₂, f₂, omega arith, b₂, v₂)
]
