-- ===== src/Container/Range/Copies.antt =====
-- What `copy`, `copyScaled` and `fill` write.
use v1util.Common.{
  ℕ, zero, suc, ◌+◌, ◌-◌, ◌≤◌, ◌<◌, ◌≡◌, ◌==◌, ◌⊎◌, refl, sym, ap, ap₂, subst, ◌∙◌, map, leb,
  leb→le, inl, inr, if◌then◌else◌, Bool-cases, true, false, Option, none, some, List, [], ◌∷◌, ◌++◌,
  drop, length, replicate, ◌>>=◌, ◌>>◌, v1_assert, arith,
}
use v1util.Container.ArrayView.{cells}
use v1util.Container.ArrayView.Slices.{length-cells, drop-cells, cong_cells}
use v1util.Container.Span.{store}
use v1util.Container.Range.{
  ItRange, size, promoted, transfer, copy, copy_scaled, elements_in, fill, fill_loop,
}

module _ {A : Type 0} where
  store-same : (a : ℕ) (x : A) (memory : ℕ → A) → store a x memory a ≡ x
  unfolding store
  store-same a x memory = let e : (a == a) ≡ true = ground arith in rw (e)

  store-other :
      (a : ℕ) (x : A) (memory : ℕ → A) (b : ℕ) → (b < a) ⊎ (a < b) → store a x memory b ≡ memory b
  unfolding store
  store-other a x memory b h = let e : (b == a) ≡ false = ground arith in rw (e)

  -- A write beside the cells leaves them.
  store-beside :
      (a : ℕ) (x : A) (memory : ℕ → A) (b n : ℕ)
      → (a < b) ⊎ (b + n ≤ a)
      → cells (store a x memory) b n ≡ cells memory b n
  store-beside a x memory b zero h = refl
  store-beside a x memory b (suc n) h =
      ap₂ (◌∷◌) (store-other a x memory b (ground arith))
        (store-beside a x memory (b + 1) n (ground arith))

  transfer-other :
      (f : A → A) (n i_in i_out : ℕ) (memory : ℕ → A) (b : ℕ)
      → (b < i_out) ⊎ (i_out + n ≤ b)
      → transfer f n i_in i_out memory b ≡ memory b
  unfolding transfer
  transfer-other f zero i_in i_out memory b h = refl
  transfer-other f (suc n) i_in i_out memory b h =
      transfer-other f n (i_in + 1) (i_out + 1) (store i_out (f (memory i_in)) memory) b
        (ground arith)
      ∙ store-other i_out (f (memory i_in)) memory b (ground arith)

  transfer-beside :
      (f : A → A) (n i_in i_out : ℕ) (memory : ℕ → A) (b m : ℕ)
      → (b + m ≤ i_out) ⊎ (i_out + n ≤ b)
      → cells (transfer f n i_in i_out memory) b m ≡ cells memory b m
  transfer-beside f n i_in i_out memory b zero h = refl
  transfer-beside f n i_in i_out memory b (suc m) h =
      ap₂ (◌∷◌) (transfer-other f n i_in i_out memory b (ground arith))
        (transfer-beside f n i_in i_out memory (b + 1) m (ground arith))

  -- The ranges may overlap where the target begins first.
  transfer-cells :
      (f : A → A) (n i_in i_out : ℕ) (memory : ℕ → A)
      → (i_out ≤ i_in) ⊎ (i_in + n ≤ i_out)
      → cells (transfer f n i_in i_out memory) i_out n ≡ map f (cells memory i_in n)
  unfolding transfer
  transfer-cells f zero i_in i_out memory h = refl
  transfer-cells f (suc n) i_in i_out memory h =
      let memory' : ℕ → A = store i_out (f (memory i_in)) memory in
      ap₂ (◌∷◌)
        (transfer-other f n (i_in + 1) (i_out + 1) memory' i_out (ground arith)
          ∙ store-same i_out (f (memory i_in)) memory)
        (transfer-cells f n (i_in + 1) (i_out + 1) memory' (ground arith)
          ∙ ap (map f) (store-beside i_out (f (memory i_in)) memory (i_in + 1) n (ground arith)))

  cells-append :
      (memory : ℕ → A) (a n m : ℕ)
      → cells memory a (n + m) ≡ cells memory a n ++ cells memory (a + n) m
  cells-append memory a zero m = cong_cells memory {k = 0 + m} (omega arith) (omega arith)
  cells-append memory a (suc n) m =
      cong_cells memory {n = suc (n + m)} refl (omega arith)
      ∙ ap (◌∷◌ (memory a)) (
          cells-append memory (a + 1) n m
          ∙ ap (λ z. cells memory (a + 1) n ++ z) (cong_cells memory (omega arith) refl))

  abbrev pub shown : ItRange → (ℕ → A) → List A
  shown r memory = cells memory r.begin (elements_in r)

  -- What is done to the elements of a range that fits, and what is behind them.
  transfer-contents :
      (f : A → A) (from out : ItRange) (memory : ℕ → A)
      → elements_in from ≤ elements_in out
      → from.begin ≤ from.end
      → (out.begin ≤ from.begin) ⊎ (from.end ≤ out.begin)
      → shown out (transfer f (elements_in from) from.begin out.begin memory)
        ≡ map f (shown from memory) ++ drop (elements_in from) (shown out memory)
  transfer-contents f from out memory fits h apart =
      let n : ℕ = elements_in from in
      let m : ℕ = elements_in out - n in
      let memory' : ℕ → A = transfer f n from.begin out.begin memory in
      cong_cells memory' {k = elements_in out} {n = n + m} refl (omega arith)
      ∙ cells-append memory' out.begin n m
      ∙ ap₂ (◌++◌) (transfer-cells f n from.begin out.begin memory (ground arith)) (
          transfer-beside f n from.begin out.begin memory (out.begin + n) m (ground arith)
          ∙ sym (drop-cells memory out.begin n (elements_in out) fits))

  map-same : (xs : List A) → map (λ x. x) xs ≡ xs
  map-same [] = refl
  map-same (x ∷ xs) = ap (◌∷◌ x) (map-same xs)

  -- What is seen of a target, and of an element elsewhere.
  abbrev pub seen : ItRange → ℕ → Option (ℕ → A) → Option (List A × A)
  seen out b o = o >>= λ memory. some (shown out memory, memory b)

  module _ (from out : ItRange) (memory : ℕ → A) (b : ℕ) (h : from.begin ≤ from.end)
      (apart : (out.begin ≤ from.begin) ⊎ (from.end ≤ out.begin))
      (outside : (b < out.begin) ⊎ (out.end ≤ b)) where
    transfer-seen :
        (f : A → A)
        → seen out b (
            v1_assert (leb (elements_in from) (elements_in out))
            >> some (transfer f (elements_in from) from.begin out.begin memory))
          ≡ (if leb (length (shown from memory)) (length (shown out memory))
              then some (
                map f (shown from memory) ++ drop (length (shown from memory)) (shown out memory),
                memory b,
              )
              else none)
    transfer-seen f =
        let n : ℕ = elements_in from in
        let len = length-cells memory from.begin n in
        let len' = length-cells memory out.begin (elements_in out) in
        elim (Bool-cases (leb n (elements_in out))) [
          | inr e ↦ rw (len, len', e)
          | inl e ↦
              let fits = leb→le n (elements_in out) e in
              rw (len, len', e)
                (ap₂ (λ xs x. some (xs, x)) (transfer-contents f from out memory fits h apart)
                  (transfer-other f n from.begin out.begin memory b (ground arith)))
        ]

    -- For a target range that begins before the source does, or behind its end, and types of range whose
    -- `size()` counts the elements: `copy` and `copyScaled` assert that the target is long enough, put the
    -- elements of the source, which `copyScaled` multiplies with `scale`, at the target's start, leave the
    -- rest of the target, and write to no address outside it.
    pub copy-contents :
        (multiply : A → A → A) (scale : A)
        → (seen out b (copy elements_in elements_in from out memory) ≡ (
            if leb (length (shown from memory)) (length (shown out memory))
            then some (
              shown from memory ++ drop (length (shown from memory)) (shown out memory),
              memory b,
            )
            else none))
          × (seen out b (copy_scaled elements_in elements_in multiply from out scale memory) ≡ (
              if leb (length (shown from memory)) (length (shown out memory))
              then some (
                map (λ x. multiply x scale) (shown from memory)
                    ++ drop (length (shown from memory)) (shown out memory),
                memory b,
              )
              else none))
    unfolding copy copy_scaled
    copy-contents multiply scale = (
      subst
          (λ xs. seen out b (copy elements_in elements_in from out memory) ≡ (
            if leb (length (shown from memory)) (length (shown out memory))
            then some (xs ++ drop (length (shown from memory)) (shown out memory), memory b)
            else none))
          (map-same (shown from memory)) (transfer-seen (λ x. x)),
      transfer-seen (λ x. multiply x scale),
    )

  -- `size()` of an `ItRange` is a bool: between two of them, the assertion of `copy` lets every source
  -- through where the target has an element, and where the target is shorter, `copy` writes the rest of the
  -- source behind it.
  pub copy-overrun :
      (from out : ItRange) (memory : ℕ → A)
      → from.begin ≤ from.end
      → out.begin < out.end
      → from.end ≤ out.begin
      → (copy (λ r. promoted (size r)) (λ r. promoted (size r)) from out memory >>= λ m.
          some (cells m out.begin (elements_in from)))
        ≡ some (shown from memory)
  unfolding copy size
  copy-overrun from out memory h lt apart =
      let guard : leb (promoted (size from)) (promoted (size out)) ≡ true = ground arith in
      rw (guard) (
        ap some (
          transfer-cells (λ x. x) (elements_in from) from.begin out.begin memory (inr (omega arith))
          ∙ map-same (shown from memory)))

  fill_loop-other :
      (x : A) (i n : ℕ) (memory : ℕ → A) (b : ℕ)
      → (b < i) ⊎ (i + n ≤ b)
      → fill_loop x i n memory b ≡ memory b
  unfolding fill_loop
  fill_loop-other x i zero memory b h = refl
  fill_loop-other x i (suc n) memory b h =
      fill_loop-other x (i + 1) n (store i x memory) b (ground arith)
      ∙ store-other i x memory b (ground arith)

  fill_loop-cells :
      (x : A) (i n : ℕ) (memory : ℕ → A) → cells (fill_loop x i n memory) i n ≡ replicate n x
  unfolding fill_loop
  fill_loop-cells x i zero memory = refl
  fill_loop-cells x i (suc n) memory =
      ap₂ (◌∷◌)
        (fill_loop-other x (i + 1) n (store i x memory) i (inl (omega arith))
          ∙ store-same i x memory)
        (fill_loop-cells x (i + 1) n (store i x memory))

  -- `fill` makes every element of the range the value, and writes to no address outside it.
  pub fill-contents :
      (out : ItRange) (value : A) (memory : ℕ → A) (b : ℕ)
      → out.begin ≤ out.end
      → (b < out.begin) ⊎ (out.end ≤ b)
      → (shown out (fill out value memory) ≡ replicate (elements_in out) value)
        × (fill out value memory b ≡ memory b)
  unfolding fill
  fill-contents out value memory b h outside = (
    fill_loop-cells value out.begin (elements_in out) memory,
    fill_loop-other value out.begin (elements_in out) memory b (ground arith),
  )
