-- ===== src/Dsp/WaveIo/Streams.antt =====
-- `WaveReader`, and `WaveWriter::write` of dsp/waveIo.cpp, on the values of a file behind its header; `memory`
-- is what the buffer from `V1_ALLOCA` holds at first.
pub mod Writes
pub mod Tests
use v1util.Common.{
  ℕ, ◌+◌, ◌-◌, ◌*◌, ◌/◌, ◌%◌, ◌^◌, ◌==◌, ltb, leb, if◌then◌else◌, Bool, true, false, not, ◌&&◌,
  Option, none, some, List, [], ◌∷◌, min, max, ◌>>=◌, ◌>>◌, v1_assert,
}
use v1util.Dsp.WaveIo.{WaveInfo}
use v1util.Dsp.WaveIo.Samples.{
  File, Span, AudioBlock, read_deinterleave_convert, convert_interleave_write,
}

pub record WaveReader : Type 0 where
  pub file : Option (File ℕ)
  pub info : WaveInfo
  pub sample_pos : ℕ

pub record WaveWriter : Type 0 where
  pub file : Option (File ℕ)
  pub info : WaveInfo

-- `WaveInfo::isValid`
unfoldable pub is_valid : WaveInfo → Bool
is_valid info = ltb 0 info.num_channels && ltb 0 info.sample_rate

abbrev pub no_info : WaveInfo
no_info = record {
  num_channels = 0;
  num_samples = 0;
  sample_rate = 0;
  is_floating_point = false;
  bits_per_sample = 0;
}

-- The constructor, once `readInfo` has read the info and left the file at its values.
unfoldable pub open_reader : WaveInfo → File ℕ → WaveReader
open_reader info file =
    if is_valid info
    then record { file = some file; info = info; sample_pos = 0 }
    else record { file = none; info = info; sample_pos = 0 }

unfoldable pub is_open : WaveReader → Bool
is_open r = elim r.file [ some file ↦ true | none ↦ false ]

-- `WaveReader::empty`
unfoldable pub empty : WaveReader → Bool
empty r = is_open r && leb r.info.num_samples r.sample_pos

unfoldable pub release_reader : WaveReader → Option (File ℕ) × WaveReader
release_reader r = (r.file, record { file = none; info = no_info; sample_pos = 0 })

-- `operator=` from another reader: the file that is closed, this reader, and the other.
unfoldable pub move_reader : WaveReader → WaveReader → Option (File ℕ) × WaveReader × WaveReader
move_reader r other = (r.file, other, record other { file = none })

abbrev pub max_buffer_size : ℕ
max_buffer_size = 65536

-- The size of the buffer in frames, for `wanted` samples.
unfoldable pub buffer_frames : WaveInfo → ℕ → Option ℕ
buffer_frames info wanted = do
  let bytes_per_value = info.bits_per_sample / 8
  -- A division by zero halts the program.
  v1_assert (not (bytes_per_value == 0) && not (info.num_channels == 0))
  some (max (min (max_buffer_size / bytes_per_value / info.num_channels) wanted) 1)

module _ {F : Type 0} (memory : ℕ → ℕ) (decode16 decode32 decode_float : ℕ → F) where
  unfoldable pub decoder : WaveInfo → Option (ℕ → F)
  decoder info =
      if info.bits_per_sample == 16
      then some decode16
      else if info.bits_per_sample == 32
      then (if info.is_floating_point then some decode_float else some decode32)
      else none

  -- `WaveReader::read`: how many samples were read, the block and the reader.
  unfoldable pub read : AudioBlock F → WaveReader → Option (ℕ × AudioBlock F × WaveReader)
  read target r = do
    file ← r.file
    v1_assert (leb target.num_channels r.info.num_channels)
    let num_samples_to_read =
        min ((r.info.num_samples + 2 ^ 32 - r.sample_pos) % 2 ^ 32) target.num_samples
    frames ← buffer_frames r.info num_samples_to_read
    decode ← decoder r.info
    (samples_read, target', file') ←
        read_deinterleave_convert decode
          (record { size = frames * r.info.num_channels; cell = memory }) num_samples_to_read
          r.info.num_channels target file
    some (
      samples_read % 2 ^ 32,
      target',
      record r { file = some file'; sample_pos = (r.sample_pos + samples_read) % 2 ^ 32 },
    )

module _ {F : Type 0} (memory : ℕ → ℕ) (encode16 encode32 encode_float : F → ℕ) where
  unfoldable pub encoder : WaveInfo → Option (F → ℕ)
  encoder info =
      if info.bits_per_sample == 16
      then some encode16
      else if info.bits_per_sample == 32
      then (if info.is_floating_point then some encode_float else some encode32)
      else none

  -- `WaveWriter::write`: whether all was written, and the writer.
  unfoldable pub write : AudioBlock F → WaveWriter → Option (Bool × WaveWriter)
  write source w = do
    file ← w.file
    v1_assert (source.num_channels == w.info.num_channels)
    frames ← buffer_frames w.info source.num_samples
    encode ← encoder w.info
    (ok, file') ←
        convert_interleave_write encode source
          (record { size = frames * w.info.num_channels; cell = memory }) file
    some (
      ok,
      record {
        file = some file';
        info = record w.info { num_samples = (w.info.num_samples + source.num_samples) % 2 ^ 32 };
      },
    )
