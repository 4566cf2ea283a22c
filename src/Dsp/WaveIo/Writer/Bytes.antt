-- ===== src/Dsp/WaveIo/Writer/Bytes.antt =====
-- The bytes of a wave file: what is written at its end and over its start, and how long it is.
use v1util.Common.{
  ℕ, zero, suc, ◌+◌, ◌-◌, ◌*◌, ◌/◌, ◌≤◌, ◌<◌, ◌≡◌, refl, ap, ap₂, leb, ltb, Bool, true, inl, inr,
  Bool-cases, List, [], ◌∷◌, ◌++◌, length, length-append, take, arith,
}
use native.Mathlib.Nat.{add-mul}
use v1util.Dsp.WaveIo.{write_wave_info, wave_header, sample_bytes}
use v1util.Dsp.WaveIo.RoundTrip.{info}
use v1util.Dsp.WaveIo.Writer.{WaveFile, overwrite, fwrite_bytes, value_bytes, values_bytes}

overwrite-end : (old bs : List ℕ) → overwrite (length old) bs old ≡ old ++ bs
overwrite-end [] [] = refl
overwrite-end [] (b ∷ bs) = refl
overwrite-end (o ∷ old) bs = ap (◌∷◌ o) (overwrite-end old bs)

overwrite-start :
    (bs front back : List ℕ)
    → length bs ≡ length front
    → overwrite 0 bs (front ++ back) ≡ bs ++ back
overwrite-start [] [] back e = refl
overwrite-start [] (x ∷ front) back e = absurd (omega arith)
overwrite-start (b ∷ bs) [] back e = absurd (omega arith)
overwrite-start (b ∷ bs) (x ∷ front) back e =
    ap (◌∷◌ b) (overwrite-start bs front back (omega arith))

take-all : (n : ℕ) (bs : List ℕ) → length bs ≤ n → take n bs ≡ bs
take-all zero [] h = refl
take-all zero (b ∷ bs) h = absurd (omega arith)
take-all (suc n) [] h = refl
take-all (suc n) (b ∷ bs) h = ap (◌∷◌ b) (take-all n bs (omega arith))

abbrev pub at_end : List ℕ → ℕ → WaveFile
at_end bytes limit = record { bytes = bytes; pos = length bytes; limit = limit }

-- A file with room takes bytes at its end, and at its start over as many old ones.
pub fwrite_bytes-end :
    (bs old : List ℕ) (limit : ℕ)
    → length old + length bs ≤ limit
    → fwrite_bytes bs (at_end old limit) ≡ (true, at_end (old ++ bs) limit)
unfolding fwrite_bytes
fwrite_bytes-end bs old limit h =
    let fits : leb (length bs) (limit - length old) ≡ true = ground arith in
    rw (
      fits,
      take-all (limit - length old) bs (omega arith),
      overwrite-end old bs,
      length-append old bs,
    )

pub fwrite_bytes-start :
    (bs front back : List ℕ) (limit : ℕ)
    → length bs ≡ length front
    → length bs ≤ limit
    → ((fwrite_bytes bs (record { bytes = front ++ back; pos = 0; limit = limit })).0 ≡ true)
      × ((fwrite_bytes bs (record { bytes = front ++ back; pos = 0; limit = limit })).1.bytes
          ≡ bs ++ back)
unfolding fwrite_bytes
fwrite_bytes-start bs front back limit e h =
    (ground arith, rw (take-all (limit - 0) bs (omega arith)) (overwrite-start bs front back e))

length-value_bytes : (k v : ℕ) → length (value_bytes k v) ≡ k
length-value_bytes zero v = refl
length-value_bytes (suc k) v = ap suc (length-value_bytes k (v / 256))

pub length-values_bytes : (k : ℕ) (value : ℕ → ℕ) (n : ℕ) → length (values_bytes k value n) ≡ n * k
length-values_bytes k value zero = omega arith
length-values_bytes k value (suc n) = omega (
  arith,
  length-append (values_bytes k value n) (value_bytes k (value n)),
  length-values_bytes k value n,
  length-value_bytes k (value n),
  add-mul n 1 k,
)

pub values_bytes-cong :
    (k : ℕ) (f g : ℕ → ℕ) (n : ℕ)
    → ((x : ℕ) → x < n → f x ≡ g x)
    → values_bytes k f n ≡ values_bytes k g n
values_bytes-cong k f g zero h = refl
values_bytes-cong k f g (suc n) h =
    ap₂ ◌++◌ (values_bytes-cong k f g n (λ x i. h x (omega arith)))
      (ap (value_bytes k) (h n (omega arith)))

-- The header is as long for every count of samples.
pub length-header :
    (nc ns ns' rate k : ℕ) (float : Bool)
    → length (write_wave_info (info nc ns rate k float))
      ≡ length (write_wave_info (info nc ns' rate k float))
unfolding write_wave_info wave_header sample_bytes
length-header nc ns ns' rate k float = elim (Bool-cases (ltb 16 (8 * k))) [
  | inl wide ↦ rw wide refl
  | inr narrow ↦ elim (Bool-cases float) [
    | inl yes_float ↦ rw (narrow, yes_float) refl
    | inr whole ↦ rw (narrow, whole) refl
  ]
]
