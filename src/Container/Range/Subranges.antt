-- ===== src/Container/Range/Subranges.antt =====
-- What the subranges of a range show.
use v1util.Common.{
  ℕ, ◌+◌, ◌-◌, ◌≤◌, ◌≡◌, ◌∙◌, refl, sym, ap, leb, min, if◌then◌else◌, ◌&&◌, Bool, Bool-cases,
  leb→le, Option, none, some, List, take, drop, length, inl, inr, ◌>>=◌, ◌>>◌, v1_assert, arith,
}
use v1util.Common.Word.{add64}
use v1util.Container.ArrayView.{cells}
use v1util.Container.ArrayView.Slices.{length-cells, take-cells, drop-cells, cong_cells}
use v1util.Container.Range.{ItRange, size, promoted, first, last, subrange, elements_in}

promoted-size : (r : ItRange) → r.begin ≤ r.end → promoted (size r) ≡ min 1 (elements_in r)
unfolding size
promoted-size r h = ground arith

small_guard :
    (start n m : ℕ)
    → (leb start (min 1 m) && leb n (min 1 m) && leb (add64 start n) (min 1 m))
      ≡ leb (start + n) (min 1 m)
unfolding add64
small_guard start n m = ground arith

module _ {A : Type 0} (memory : ℕ → A) where
  abbrev pub shown : Option ItRange → Option (List A)
  shown o = o >>= λ r. some (cells memory r.begin (elements_in r))

  guarded :
      (r r' : ItRange) (guard : Bool) (k : ℕ) (ys : List A)
      → guard ≡ leb k (min 1 (elements_in r))
      → (k ≤ elements_in r → cells memory r'.begin (elements_in r') ≡ ys)
      → shown (v1_assert guard >> some r')
        ≡ (if leb k (min 1 (length (cells memory r.begin (elements_in r)))) then some ys else none)
  guarded r r' guard k ys same e =
      let n : ℕ = elements_in r in
      let len : length (cells memory r.begin n) ≡ n = length-cells memory r.begin n in
      elim (Bool-cases (leb k (min 1 n))) [
        | inr f ↦ rw (same, len, f)
        | inl f ↦ let le = leb→le k (min 1 n) f in rw (same, len, f) (ap some (e (omega arith)))
      ]

  -- For a range whose end is not before its begin: `size()` is a bool, so `first`, `last` and `subrange` refuse every end behind the first
  -- element. Where they do not, `first` and `subrange` show the elements that they are asked for, and
  -- `last` shows all but as many of the first elements.
  pub subranges-contents :
      (r : ItRange) (start count : ℕ)
      → r.begin ≤ r.end
      → (shown (first count r) ≡ (
          if leb count (min 1 (length (cells memory r.begin (elements_in r))))
          then some (take count (cells memory r.begin (elements_in r)))
          else none))
        × (shown (last count r) ≡ (
            if leb count (min 1 (length (cells memory r.begin (elements_in r))))
            then some (drop count (cells memory r.begin (elements_in r)))
            else none))
        × (shown (subrange start count r) ≡ (
            if leb (start + count) (min 1 (length (cells memory r.begin (elements_in r))))
            then some (take count (drop start (cells memory r.begin (elements_in r))))
            else none))
  unfolding first last subrange
  subranges-contents r start count h =
      let n : ℕ = elements_in r in
      let bool = promoted-size r h in
      (
        guarded r _ _ count _ (ap (leb count) bool) (λ fits.
            cong_cells memory refl (omega arith) ∙ sym (take-cells memory r.begin count n fits)),
        guarded r _ _ count _ (ap (leb count) bool) (λ fits.
            cong_cells memory refl (omega arith) ∙ sym (drop-cells memory r.begin count n fits)),
        guarded r _ _ (start + count) _
            (ap (λ z. leb start z && leb count z && leb (add64 start count) z) bool
              ∙ small_guard start count n)
            (λ fits.
              cong_cells memory refl (omega arith)
              ∙ sym (
                  ap (take count) (drop-cells memory r.begin start n (omega arith))
                  ∙ take-cells memory (r.begin + start) count (n - start) (omega arith))),
      )
