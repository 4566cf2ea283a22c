-- ===== src/Container/ArrayView/Slices.antt =====
-- Cutting a view cuts the sequence that it shows.
use v1util.Common.{
  ℕ, zero, suc, ◌+◌, ◌-◌, ◌<◌, ◌≤◌, ◌≡◌, refl, ap, ◌∙◌, leb, ◌&&◌, Bool, Option, none, some, List,
  [], ◌∷◌, take, drop, length, ◌>>=◌, inl, inr, Bool-cases, leb→le, le→leb, ap₂, v1_assert, ◌>>◌,
  ◌^◌, arith,
}
use v1util.Common.Word.{word, add64}
use v1util.Container.ArrayView.{
  ArrayView, from_pointers, size, first, skip, last, shrink, subview, cells, contents, Slice,
  firsts, skips, lasts, shrinks, subviews, cut, cut_all, fitting, spec_cut, spec_cut_all,
}

subview_guard :
    (start n m : ℕ)
    → m + m < word
    → (leb start m && leb n m && leb (add64 start n) m) ≡ leb (start + n) m
unfolding add64
subview_guard start n m h = ground arith

module _ {A : Type 0} (memory : ℕ → A) where
  pub length-cells : (a n : ℕ) → length (cells memory a n) ≡ n
  length-cells a zero = refl
  length-cells a (suc n) = ap suc (length-cells (a + 1) n)

  pub take-cells : (a k n : ℕ) → k ≤ n → take k (cells memory a n) ≡ cells memory a k
  take-cells a zero zero h = refl
  take-cells a zero (suc n) h = refl
  take-cells a (suc k) zero h = absurd (omega arith)
  take-cells a (suc k) (suc n) h = ap (◌∷◌ (memory a)) (take-cells (a + 1) k n (omega arith))

  pub cong_cells : {a b k n : ℕ} → a ≡ b → k ≡ n → cells memory a k ≡ cells memory b n
  cong_cells e f = ap₂ (cells memory) e f

  pub drop-cells : (a k n : ℕ) → k ≤ n → drop k (cells memory a n) ≡ cells memory (a + k) (n - k)
  drop-cells a zero n h = cong_cells (omega arith) (omega arith)
  drop-cells a (suc k) zero h = absurd (omega arith)
  drop-cells a (suc k) (suc n) h =
      drop-cells (a + 1) k n (omega arith) ∙ cong_cells (omega arith) (omega arith)

  -- A view of at most `limit` elements.
  pub record Valid (v : ArrayView) : Type 0 where
    pub ordered : v.begin ≤ v.end
    pub small : v.end - v.begin + (v.end - v.begin) < word

  -- Both assertions fire, or the cut view shows the cut sequence.
  pub data Cuts (m : Option ArrayView) (n : Option (List A)) : Type 0 where
    refuses : m ≡ none → n ≡ none → Cuts m n
    shows : (v : ArrayView) → m ≡ some v → n ≡ some (contents memory v) → Valid v → Cuts m n

  guarded :
      (v v' : ArrayView) (guard : Bool) (k : ℕ) (ys : List A)
      → guard ≡ leb k (v.end - v.begin)
      → (k ≤ v.end - v.begin → (ys ≡ contents memory v') × Valid v')
      → Cuts (v1_assert guard >> from_pointers v'.begin v'.end) (fitting k (contents memory v) ys)
  unfolding from_pointers
  guarded v v' guard k ys same fits =
      let n : ℕ = v.end - v.begin in
      let len : length (contents memory v) ≡ n = length-cells v.begin n in
      elim (Bool-cases (leb k n)) [
        | inl e ↦
            let (shown, valid) = fits (leb→le k n e) in
            shows v' (rw (same, e, le→leb v'.begin v'.end valid.ordered)) (rw (len, e, shown)) valid
        | inr e ↦ refuses (rw (same, e)) (rw (len, e))
      ]

  cut-Cuts : (c : Slice) (v : ArrayView) → Valid v → Cuts (cut c v) (spec_cut c (contents memory v))
  unfolding cut spec_cut first skip last shrink subview size
  cut-Cuts (firsts n) v h =
      guarded v (record { begin = _; end = _ }) _ n _ refl
        (λ fits. (
          take-cells v.begin n (v.end - v.begin) fits ∙ cong_cells refl (omega arith),
          record { ordered = omega arith; small = omega (arith, h.ordered, h.small) },
        ))
  cut-Cuts (skips n) v h =
      guarded v (record { begin = _; end = _ }) _ n _ refl
        (λ fits. (
          drop-cells v.begin n (v.end - v.begin) fits ∙ cong_cells refl (omega arith),
          record { ordered = omega (arith, h.ordered); small = omega (arith, h.ordered, h.small) },
        ))
  cut-Cuts (lasts n) v h =
      let m : ℕ = v.end - v.begin in
      let len : length (contents memory v) ≡ m = length-cells v.begin m in
      guarded v (record { begin = _; end = _ }) _ n _ refl
        (λ fits. (
          ap (λ z. drop (z - n) (contents memory v)) len
              ∙ drop-cells v.begin (m - n) m (omega arith)
              ∙ cong_cells (omega (arith, h.ordered)) (omega (arith, h.ordered)),
          record { ordered = omega (arith, h.ordered); small = omega (arith, h.ordered, h.small) },
        ))
  cut-Cuts (shrinks n) v h =
      let m : ℕ = v.end - v.begin in
      let len : length (contents memory v) ≡ m = length-cells v.begin m in
      guarded v (record { begin = _; end = _ }) _ n _ refl
        (λ fits. (
          ap (λ z. take (z - n) (contents memory v)) len
              ∙ take-cells v.begin (m - n) m (omega arith)
              ∙ cong_cells refl (omega (arith, h.ordered)),
          record { ordered = omega (arith, h.ordered); small = omega (arith, h.ordered, h.small) },
        ))
  cut-Cuts (subviews start n) v h =
      let m : ℕ = v.end - v.begin in
      guarded v (record { begin = _; end = _ }) _ (start + n) _ (subview_guard start n m h.small)
        (λ fits. (
          ap (take n) (drop-cells v.begin start m (omega arith))
              ∙ take-cells (v.begin + start) n (m - start) (omega arith)
              ∙ cong_cells refl (omega arith),
          record { ordered = omega (arith, h.ordered); small = omega (arith, h.ordered, h.small) },
        ))

  cut_all-Cuts :
      (cs : List Slice) (v : ArrayView)
      → Valid v
      → Cuts (cut_all cs v) (spec_cut_all cs (contents memory v))
  unfolding cut_all spec_cut_all
  cut_all-Cuts [] v h = shows v refl refl h
  cut_all-Cuts (c ∷ cs) v h = elim (cut-Cuts c v h) [
    | refuses e f ↦ refuses (rw e) (rw f)
    | shows v' e f h' ↦ elim (cut_all-Cuts cs v' h') [
      | refuses e' f' ↦ refuses (rw (e, e')) (rw (f, f'))
      | shows v'' e' f' h'' ↦ shows v'' (rw (e, e')) (rw (f, f')) h''
    ]
  ]

  -- For a view of fewer than 2 ^ 63 elements and any chain of `first`, `skip`, `last`, `shrink` and
  -- `subview`: what the resulting view shows is what the same cuts leave of the sequence, and an
  -- assertion fires exactly where a cut asks for more elements than there are.
  pub cut_all-contents :
      (cs : List Slice) (v : ArrayView)
      → v.begin ≤ v.end
      → v.end - v.begin < 2 ^ 63
      → (cut_all cs v >>= λ v'. some (contents memory v')) ≡ spec_cut_all cs (contents memory v)
  cut_all-contents cs v h small =
      elim (cut_all-Cuts cs v (record { ordered = h; small = omega arith })) [
        | refuses e f ↦ rw (e, f)
        | shows v' e f h' ↦ rw (e, f)
      ]
