-- ===== src/Dsp/PeakFinder/MaximaFinder/Skyline.antt =====
-- What the candidate queue holds, as a function of the samples: the skyline of the window seen from
-- its newest sample, that is the samples which exceed all newer ones.
use v1util.Common.{
  ℕ, suc, ◌+◌, ◌-◌, ◌%◌, ◌≤◌, ◌<◌, ◌≡◌, refl, ap, ◌∙◌, ◌⊎◌, inl, inr, Bool, true, false, leb, List,
  [], ◌∷◌, ◌++◌, length, max, Bool-cases, arith, leb→le, le→leb,
}
use v1util.Common.Word.{word, sub64}
use v1util.Container.Deque.Loops.{drop_while, trim, trim_cons, trim-snoc}
use v1util.Dsp.PeakFinder.MaximaFinder.{Candidate}

abbrev pub maximum : List ℕ → ℕ
maximum [] = 0
maximum (v ∷ vs) = max v (maximum vs)

-- The test of the loop at the back of the queue.
abbrev pub dominated : ℕ → Candidate → Bool
dominated v c = leb c.value v

-- The sample read as number `n` becomes the newest candidate.
abbrev pub cover : ℕ → ℕ → List Candidate → List Candidate
cover n v cs = record { sample_pos = n % word; value = v } ∷ drop_while (dominated v) cs

-- `n` samples have been read, the newest of them first in the list.
abbrev pub skyline : ℕ → List ℕ → List Candidate
skyline n [] = []
skyline n (v ∷ vs) = cover (n - 1) v (skyline (n - 1) vs)

abbrev pub All : (Candidate → Type 0) → List Candidate → Type 0
All P [] = Unit {0}
All P (c ∷ cs) = P c × All P cs

All-drop_while :
    (P : Candidate → Type 0) (test : Candidate → Bool) (cs : List Candidate)
    → All P cs
    → All P (drop_while test cs)
All-drop_while P test [] h = tt
All-drop_while P test (c ∷ cs) h = elim (Bool-cases (test c)) [
  | inl e ↦ rw e (All-drop_while P test cs h.1)
  | inr e ↦ rw e h
]

drop_while-All :
    (test : Candidate → Bool) (cs : List Candidate)
    → All (λ c. test c ≡ true) cs
    → drop_while test cs ≡ []
drop_while-All test [] h = refl
drop_while-All test (c ∷ cs) h = rw h.0 (drop_while-All test cs h.1)

All-map :
    (P Q : Candidate → Type 0) (cs : List Candidate)
    → ((c : Candidate) → P c → Q c)
    → All P cs
    → All Q cs
All-map P Q [] f h = tt
All-map P Q (c ∷ cs) f h = (f c h.0, All-map P Q cs f h.1)

drop_while-snoc_keep :
    (test : Candidate → Bool) (cs : List Candidate) (c : Candidate)
    → test c ≡ false
    → (ds : List Candidate) × (drop_while test (cs ++ c ∷ []) ≡ ds ++ c ∷ [])
drop_while-snoc_keep test [] c e = ([], rw e)
drop_while-snoc_keep test (d ∷ cs) c e = elim (Bool-cases (test d)) [
  | inl p ↦ let (ds, r) = drop_while-snoc_keep test cs c e in (ds, rw p r)
  | inr p ↦ (d ∷ cs, rw p)
]

-- No candidate exceeds the maximum of the window.
pub skyline-le-maximum : (n : ℕ) (vs : List ℕ) → All (λ c. c.value ≤ maximum vs) (skyline n vs)
skyline-le-maximum n [] = tt
skyline-le-maximum n (v ∷ vs) = (
  omega arith,
  All-map (λ c. c.value ≤ maximum vs) (λ c. c.value ≤ max v (maximum vs)) _ (λ c h. omega arith)
      (All-drop_while _ _ _ (skyline-le-maximum (n - 1) vs)),
)

cover-last :
    (n v : ℕ) (s cs : List Candidate) (c : Candidate)
    → s ≡ cs ++ c ∷ []
    → All (λ d. d.value ≤ c.value) s
    → (ds : List Candidate) × (d : Candidate) × (cover n v s ≡ ds ++ d ∷ [])
      × (d.value ≡ max v c.value)
cover-last n v s cs c e bound = elim (Bool-cases (dominated v c)) [
  | inl low ↦
      let below : c.value ≤ v = leb→le c.value v low in
      let gone : drop_while (dominated v) s ≡ [] = drop_while-All (dominated v) s (
        All-map (λ d. d.value ≤ c.value) (λ d. dominated v d ≡ true) s
          (λ d h. le→leb d.value v (omega arith)) bound) in
      (
        [],
        record { sample_pos = n % word; value = v },
        ap (◌∷◌ (record { sample_pos = n % word; value = v })) gone,
        omega arith,
      )
  | inr high ↦
      let (ds, r) = drop_while-snoc_keep (dominated v) cs c high in
      (
        record { sample_pos = n % word; value = v } ∷ ds,
        c,
        ap (◌∷◌ (record { sample_pos = n % word; value = v }))
            (ap (drop_while (dominated v)) e ∙ r),
        ground arith,
      )
]

-- The oldest candidate is the maximum of the window.
pub skyline-last :
    (n v : ℕ) (vs : List ℕ)
    → (cs : List Candidate) × (c : Candidate) × (skyline n (v ∷ vs) ≡ cs ++ c ∷ [])
      × (c.value ≡ maximum (v ∷ vs))
skyline-last n v [] = ([], record { sample_pos = (n - 1) % word; value = v }, refl, omega arith)
skyline-last n v (w ∷ vs) =
    let (cs, c, e, m) = skyline-last (n - 1) w vs in
    let (ds, d, r, k) = cover-last (n - 1) v (skyline (n - 1) (w ∷ vs)) cs c e (
      All-map (λ d. d.value ≤ maximum (w ∷ vs)) (λ d. d.value ≤ c.value) (skyline (n - 1) (w ∷ vs))
        (λ d h. omega arith) (skyline-le-maximum (n - 1) (w ∷ vs))) in
    (ds, d, r, k ∙ ap (max v) m)

length-drop_while :
    (test : Candidate → Bool) (cs : List Candidate) → length (drop_while test cs) ≤ length cs
length-drop_while test [] = omega arith
length-drop_while test (c ∷ cs) = ground (arith, length-drop_while test cs)

pub length-skyline : (n : ℕ) (vs : List ℕ) → length (skyline n vs) ≤ length vs
length-skyline n [] = omega arith
length-skyline n (v ∷ vs) =
    omega (arith, length-skyline (n - 1) vs, length-drop_while (dominated v) (skyline (n - 1) vs))

pub length-drop_while-skyline :
    (v n : ℕ) (vs : List ℕ) → length (drop_while (dominated v) (skyline n vs)) ≤ length vs
length-drop_while-skyline v n vs =
    omega (arith, length-drop_while (dominated v) (skyline n vs), length-skyline n vs)

-- How long ago, at the time `now`, the candidate's sample was read.
abbrev age : ℕ → Candidate → ℕ
age now c = sub64 (now % word) c.sample_pos

age-at : (now n : ℕ) → n ≤ now → now - n < word → sub64 (now % word) (n % word) ≡ now - n
unfolding sub64
age-at now n h k = omega arith

-- Every candidate of a window is younger than the window is long.
skyline-age :
    (now n : ℕ) (vs : List ℕ)
    → n ≤ now
    → length vs ≤ n
    → now - n + length vs < word
    → All (λ c. age now c ≤ now - n + length vs) (skyline n vs)
skyline-age now n [] h k b = tt
skyline-age now n (v ∷ vs) h k b = (
  omega (arith, age-at now (n - 1) (omega arith) (omega arith)),
  All-map (λ c. age now c ≤ now - (n - 1) + length vs) (λ c. age now c ≤ now - n + suc (length vs))
      _ (λ c p. omega arith)
      (All-drop_while _ (dominated v) _
        (skyline-age now (n - 1) vs (omega arith) (omega arith) (omega arith))),
)

-- The test of the loop at the front of the queue.
abbrev pub outdated : ℕ → ℕ → Candidate → Bool
outdated window now c = leb window (age now c)

trim-All :
    (test : Candidate → Bool) (cs : List Candidate)
    → All (λ c. test c ≡ false) cs
    → trim test cs ≡ cs
trim-All test [] h = refl
trim-All test (c ∷ []) h = rw h.0
trim-All test (c ∷ d ∷ cs) h = ap (trim_cons test c) (trim-All test (d ∷ cs) h.1)

drop_while-snoc :
    (test : Candidate → Bool) (cs : List Candidate) (c : Candidate)
    → (drop_while test (cs ++ c ∷ []) ≡ drop_while test cs)
      ⊎ (drop_while test (cs ++ c ∷ []) ≡ drop_while test cs ++ c ∷ [])
drop_while-snoc test [] c = elim (Bool-cases (test c)) [ inl p ↦ inl (rw p) | inr p ↦ inr (rw p) ]
drop_while-snoc test (d ∷ cs) c = elim (Bool-cases (test d)) [
  | inl p ↦ rw p (drop_while-snoc test cs c)
  | inr p ↦ inr (rw p)
]

-- One sample more at the old end adds at most one candidate, and that at the old end.
skyline-snoc :
    (n : ℕ) (vs : List ℕ) (o : ℕ)
    → (skyline n (vs ++ o ∷ []) ≡ skyline n vs)
      ⊎ (skyline n (vs ++ o ∷ [])
          ≡ skyline n vs ++ record { sample_pos = (n - 1 - length vs) % word; value = o } ∷ [])
skyline-snoc n [] o = inr (ap (λ k. record { sample_pos = k % word; value = o } ∷ []) (omega arith))
skyline-snoc n (v ∷ vs) o = elim (skyline-snoc (n - 1) vs o) [
  | inl same ↦ inl (ap (cover (n - 1) v) same)
  | inr old ↦
      elim (drop_while-snoc (dominated v) (skyline (n - 1) vs)
        (record { sample_pos = (n - 1 - 1 - length vs) % word; value = o })) [
          | inl dropped ↦ inl (
              ap (cover (n - 1) v) old
              ∙ ap (◌∷◌ (record { sample_pos = (n - 1) % word; value = v })) dropped)
          | inr kept ↦ inr (
              ap (cover (n - 1) v) old
              ∙ ap (◌∷◌ (record { sample_pos = (n - 1) % word; value = v })) kept
              ∙ ap
                  (λ k.
                    cover (n - 1) v (skyline (n - 1) vs)
                    ++ record { sample_pos = k % word; value = o } ∷ [])
                  (omega arith))
        ]
]

-- A full window loses exactly its oldest sample when the next one is about to come.
pub trim-skyline :
    (window now : ℕ) (vs : List ℕ) (o : ℕ)
    → window ≡ suc (length vs)
    → window ≤ now
    → window < word
    → trim (outdated window now) (skyline now (vs ++ o ∷ [])) ≡ skyline now vs
trim-skyline window now vs o e h k = elim (skyline-snoc now vs o) [
  | inl same ↦ rw same young
  | inr old ↦ rw old (
      trim-snoc (outdated window now) (skyline now vs) _
        (ground (arith, age-at now (now - 1 - length vs)))
      ∙ young)
]
  where
    young : trim (outdated window now) (skyline now vs) ≡ skyline now vs
    young = trim-All (outdated window now) (skyline now vs) (
        All-map (λ c. age now c ≤ now - now + length vs) (λ c. outdated window now c ≡ false)
          (skyline now vs) (λ c p. ground arith)
          (skyline-age now now vs (omega arith) (omega arith) (omega arith)))
