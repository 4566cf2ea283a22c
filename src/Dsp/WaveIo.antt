-- ===== src/Dsp/WaveIo.antt =====
-- The header of a wave file as dsp/waveIo.cpp writes and reads it. A file is the list of its bytes;
-- reading and writing do not fail but at the end of the file, and sample rates are whole numbers.
pub mod RoundTrip
pub mod Samples
pub mod Streams
pub mod Writer
pub mod Tests
use v1util.Common.{
  ℕ, zero, suc, ◌+◌, ◌-◌, ◌*◌, ◌/◌, ◌%◌, ◌^◌, ◌==◌, ltb, not, if◌then◌else◌, Bool, true, false,
  ◌||◌, Option, none, some, List, [], ◌∷◌, ◌++◌, drop, length, ◌>>=◌, ◌>>◌, v1_assert,
}

pub record WaveInfo : Type 0 where
  pub num_channels : ℕ
  pub num_samples : ℕ
  pub sample_rate : ℕ
  pub is_floating_point : Bool
  pub bits_per_sample : ℕ

-- Little- and big-endian fields, and a chunk's header.
abbrev pub le16 : ℕ → List ℕ
le16 n = n % 256 ∷ n / 256 % 256 ∷ []

abbrev pub le32 : ℕ → List ℕ
le32 n = n % 256 ∷ n / 256 % 256 ∷ n / 65536 % 256 ∷ n / 16777216 % 256 ∷ []

abbrev pub be32 : ℕ → List ℕ
be32 n = n / 16777216 % 256 ∷ n / 65536 % 256 ∷ n / 256 % 256 ∷ n % 256 ∷ []

abbrev pub chunk_header : ℕ → ℕ → List ℕ
chunk_header id size = be32 id ++ le32 size

-- 'RIFF', 'WAVE', 'fmt ', 'fact', 'data'
abbrev pub riff_id : ℕ
riff_id = 1380533830

abbrev pub wave_id : ℕ
wave_id = 1463899717

abbrev pub fmt_id : ℕ
fmt_id = 1718449184

abbrev pub fact_id : ℕ
fact_id = 1717658484

abbrev pub data_id : ℕ
data_id = 1684108385

unfoldable pub sample_bytes : WaveInfo → ℕ
sample_bytes info =
    info.num_channels * info.num_samples % 2 ^ 32 * (info.bits_per_sample / 8) % 2 ^ 32

unfoldable pub wave_chunk_size : WaveInfo → ℕ
wave_chunk_size info = 16 + (if ltb 16 info.bits_per_sample then 2 else 0)

unfoldable pub subchunks_size : WaveInfo → ℕ
subchunks_size info =
    (8 + (sample_bytes info + 1) % 2 ^ 32 / 2 * 2 + 12 + wave_chunk_size info) % 2 ^ 32

unfoldable pub block_align : WaveInfo → ℕ
block_align info = info.bits_per_sample * info.num_channels % 2 ^ 32 / 8 % 2 ^ 16

-- `WaveFormatSubchunkHeader`
unfoldable pub wave_header : WaveInfo → List ℕ
wave_header info =
    le16 (if info.is_floating_point then 3 else 1)
    ++ le16 info.num_channels
    ++ le32 info.sample_rate
    ++ le32 (block_align info * info.sample_rate)
    ++ le16 (block_align info)
    ++ le16 info.bits_per_sample

-- The bytes that `writeWaveInfo` writes from the start of the file.
unfoldable pub write_wave_info : WaveInfo → List ℕ
write_wave_info info =
    chunk_header riff_id (subchunks_size info)
    ++ be32 wave_id
    ++ chunk_header fmt_id (wave_chunk_size info)
    ++ wave_header info
    ++ (if ltb 16 info.bits_per_sample then le16 0 else [])
    ++ (if ltb 16 info.bits_per_sample || info.is_floating_point
        then chunk_header fact_id 4 ++ le32 info.num_samples
        else [])
    ++ chunk_header data_id (sample_bytes info)

-- `fread` of a field, and the file behind it.
abbrev pub read_le16 : List ℕ → Option (ℕ × List ℕ)
read_le16 (a ∷ b ∷ f) = some (a + 256 * b, f)
read_le16 f = none

abbrev pub read_le32 : List ℕ → Option (ℕ × List ℕ)
read_le32 (a ∷ b ∷ c ∷ d ∷ f) = some (a + 256 * b + 65536 * c + 16777216 * d, f)
read_le32 f = none

abbrev pub read_be32 : List ℕ → Option (ℕ × List ℕ)
read_be32 (a ∷ b ∷ c ∷ d ∷ f) = some (16777216 * a + 65536 * b + 256 * c + d, f)
read_be32 f = none

-- `seekToChunk`: the size of the chunk, and the file behind its header. The fuel is the number of
-- headers to look at.
unfoldable pub seek_to_chunk : ℕ → ℕ → ℕ → List ℕ → Option (ℕ × List ℕ)
seek_to_chunk zero id skip file = none
seek_to_chunk (suc fuel) id skip file = do
  (chunk_id, f) ← read_be32 (drop skip file)
  (size, g) ← read_le32 f
  let rest = seek_to_chunk fuel id size g
  (if chunk_id == id then some (size, g) else rest)

-- `fseek(pFile, chunkSize - sizeof(waveFormat), SEEK_CUR)`, which goes back where the difference wraps.
abbrev pub after_format : List ℕ → List ℕ → ℕ → List ℕ
after_format file rest fmt_size =
    if ltb fmt_size 16
    then drop (length file - length rest + fmt_size - 16) file
    else drop (fmt_size - 16) rest

-- `readInfo`; `none` is the empty info that stands for an unreadable file.
unfoldable pub read_info : List ℕ → Option WaveInfo
read_info file = do
  (id, f₁) ← read_be32 file
  (size, f₂) ← read_le32 f₁
  v1_assert (id == riff_id)
  (format, f₃) ← read_be32 f₂
  v1_assert (format == wave_id)
  (fmt_size, f₄) ← seek_to_chunk (length file) fmt_id 0 f₃
  (audio_format, f₅) ← read_le16 f₄
  (num_channels, f₆) ← read_le16 f₅
  (sample_rate, f₇) ← read_le32 f₆
  (byte_rate, f₈) ← read_le32 f₇
  (align, f₉) ← read_le16 f₈
  (bits, f₁₀) ← read_le16 f₉
  v1_assert (audio_format == 1 || audio_format == 3)
  v1_assert (align == num_channels * bits / 8)
  (data_size, f₁₁) ← seek_to_chunk (length file) data_id 0 (after_format file f₁₀ fmt_size)
  -- A division by zero halts the program.
  v1_assert (not (align == 0))
  some (record {
    num_channels = num_channels;
    num_samples = data_size / align;
    sample_rate = sample_rate;
    is_floating_point = audio_format == 3;
    bits_per_sample = bits % 256;
  })
