-- ===== src/Dsp/WaveIo/RoundTrip.antt =====
-- A written wave header is read back.
use v1util.Common.{
  ℕ, ◌+◌, ◌*◌, ◌/◌, ◌%◌, ◌^◌, ◌<◌, ◌≡◌, ◌==◌, ltb, if◌then◌else◌, Bool, true, false, inl, inr,
  Bool-cases, ◌||◌, some, List, ◌++◌, length, arith,
}
use native.Mathlib.Nat.{mul-div_cancel, mul-pos}
use v1util.Dsp.WaveIo.{
  WaveInfo, write_wave_info, read_info, seek_to_chunk, sample_bytes, wave_chunk_size,
  subchunks_size, block_align, wave_header,
}

two_bytes : (n : ℕ) → n < 2 ^ 16 → n % 256 + 256 * (n / 256 % 256) ≡ n
two_bytes n h = omega arith

four_bytes :
    (n : ℕ)
    → n < 2 ^ 32
    → n % 256 + 256 * (n / 256 % 256) + 65536 * (n / 65536 % 256) + 16777216 * (n / 16777216 % 256)
      ≡ n
four_bytes n h = omega arith

module _ (nc ns rate k : ℕ) (float : Bool) where
  abbrev pub info : WaveInfo
  info = record {
    num_channels = nc;
    num_samples = ns;
    sample_rate = rate;
    is_floating_point = float;
    bits_per_sample = 8 * k;
  }

  align_value : nc * k < 2 ^ 16 → block_align info ≡ nc * k
  unfolding block_align
  align_value h = let e : 8 * k * nc ≡ 8 * (nc * k) = omega arith in rw e (omega arith)

  align_test : nc * (8 * k) / 8 ≡ nc * k
  align_test = let e : nc * (8 * k) ≡ 8 * (nc * k) = omega arith in rw e (omega arith)

  bytes_value : nc * ns < 2 ^ 32 → nc * ns * k < 2 ^ 32 → sample_bytes info ≡ nc * ns * k
  unfolding sample_bytes
  bytes_value h g =
      let e : 8 * k / 8 ≡ k = omega arith in
      let f : nc * ns % 2 ^ 32 ≡ nc * ns = omega arith in rw (e, f) (omega arith)

  count_value : 0 < nc → 0 < k → nc * ns * k / (nc * k) ≡ ns
  count_value p q =
      let e : nc * ns * k ≡ ns * (nc * k) = omega arith in rw e (mul-div_cancel ns (mul-pos p q))

-- For 1 to 31 whole bytes per value, at least one channel, a rate below 2 ^ 32, channels and bytes per
-- frame below 2 ^ 16, and values and bytes in all below 2 ^ 32: the header that `writeWaveInfo` writes,
-- with any samples behind it, is read back by `readInfo` as the same info.
pub read_info-write_wave_info :
    (nc ns rate k : ℕ) (float : Bool) (samples : List ℕ)
    → 0 < nc
    → 0 < k
    → k < 32
    → rate < 2 ^ 32
    → nc < 2 ^ 16
    → nc * k < 2 ^ 16
    → nc * ns < 2 ^ 32
    → nc * ns * k < 2 ^ 32
    → read_info (write_wave_info (info nc ns rate k float) ++ samples)
      ≡ some (info nc ns rate k float)
unfolding write_wave_info read_info seek_to_chunk wave_chunk_size wave_header
read_info-write_wave_info nc ns rate k true samples p q small b a c d e =
    let w : WaveInfo = info nc ns rate k true in
    let align : block_align w ≡ nc * k = align_value nc ns rate k true c in
    let bytes : sample_bytes w ≡ nc * ns * k = bytes_value nc ns rate k true d e in
    let test : nc * (8 * k) / 8 ≡ nc * k = align_test nc ns rate k true in
    let count : nc * ns * k / (nc * k) ≡ ns = count_value nc ns rate k true p q in
    let bits : 8 * k % 256 ≡ 8 * k = omega arith in
    let b1 = two_bytes nc a in
    let b2 = two_bytes (8 * k) (omega arith) in
    let b3 = two_bytes (nc * k) c in
    let b4 = four_bytes rate b in
    let b5 = four_bytes (nc * ns * k) e in
    let positive : 0 < nc * k = mul-pos p q in
    let divides : (nc * k == 0) ≡ false = ground arith in
    let same : (nc * k == nc * k) ≡ true = ground arith in
    elim (Bool-cases (ltb 16 (8 * k))) [
      | inl wide ↦ rw (wide, align, bytes, b1, b2, b3, b4, b5, test, same, divides, count, bits)
      | inr narrow ↦ rw (narrow, align, bytes, b1, b2, b3, b4, b5, test, same, divides, count, bits)
    ]
read_info-write_wave_info nc ns rate k false samples p q small b a c d e =
    let w : WaveInfo = info nc ns rate k false in
    let align : block_align w ≡ nc * k = align_value nc ns rate k false c in
    let bytes : sample_bytes w ≡ nc * ns * k = bytes_value nc ns rate k false d e in
    let test : nc * (8 * k) / 8 ≡ nc * k = align_test nc ns rate k false in
    let count : nc * ns * k / (nc * k) ≡ ns = count_value nc ns rate k false p q in
    let bits : 8 * k % 256 ≡ 8 * k = omega arith in
    let b1 = two_bytes nc a in
    let b2 = two_bytes (8 * k) (omega arith) in
    let b3 = two_bytes (nc * k) c in
    let b4 = four_bytes rate b in
    let b5 = four_bytes (nc * ns * k) e in
    let positive : 0 < nc * k = mul-pos p q in
    let divides : (nc * k == 0) ≡ false = ground arith in
    let same : (nc * k == nc * k) ≡ true = ground arith in
    elim (Bool-cases (ltb 16 (8 * k))) [
      | inl wide ↦ rw (wide, align, bytes, b1, b2, b3, b4, b5, test, same, divides, count, bits)
      | inr narrow ↦ rw (narrow, align, bytes, b1, b2, b3, b4, b5, test, same, divides, count, bits)
    ]

-- For sample data that leave room for the header in 32 bits: the size in the RIFF chunk is what follows
-- it, the padded data included, where no fact chunk is written; where one is, it is 12 bytes too small.
pub subchunks_size-length :
    (w : WaveInfo)
    → sample_bytes w + 64 < 2 ^ 32
    → subchunks_size w + 8 + (if ltb 16 w.bits_per_sample || w.is_floating_point then 12 else 0)
      ≡ length (write_wave_info w) + (sample_bytes w + 1) / 2 * 2
unfolding subchunks_size write_wave_info wave_chunk_size wave_header sample_bytes
subchunks_size-length w h = elim (Bool-cases (ltb 16 w.bits_per_sample)) [
  | inl wide ↦ rw wide (omega arith)
  | inr narrow ↦ elim (Bool-cases w.is_floating_point) [
    | inl float ↦ rw (narrow, float) (omega arith)
    | inr whole ↦ rw (narrow, whole) (omega arith)
  ]
]
