-- ===== src/Dsp/WaveIo/Writer.antt =====
-- `WaveWriter` of dsp/waveIo.cpp on one file of bytes: the constructor, the destructor, `write`, `release` and
-- the assignment. `limit` is the size up to which the file can grow.
mod Bytes
mod Lifecycle
mod Tests
use v1util.Common.{
  ℕ, zero, suc, ◌+◌, ◌-◌, ◌/◌, ◌%◌, leb, if◌then◌else◌, Bool, Option, none, some, List, [], ◌∷◌,
  ◌++◌, length, take, ◌>>=◌,
}
use v1util.Dsp.WaveIo.{WaveInfo, write_wave_info}
use v1util.Dsp.WaveIo.Samples.{File, AudioBlock}
use v1util.Dsp.WaveIo.Streams.{no_info, write}

pub record WaveFile : Type 0 where
  pub bytes : List ℕ
  pub pos : ℕ
  pub limit : ℕ

pub record ByteWriter : Type 0 where
  pub file : Option WaveFile
  pub info : WaveInfo

-- New bytes from a position on, over the old ones and behind them.
abbrev pub overwrite : ℕ → List ℕ → List ℕ → List ℕ
overwrite zero [] old = old
overwrite zero (b ∷ bs) [] = b ∷ bs
overwrite zero (b ∷ bs) (o ∷ old) = b ∷ overwrite zero bs old
overwrite (suc n) bs [] = bs
overwrite (suc n) bs (o ∷ old) = o ∷ overwrite n bs old

-- `fwrite`, and whether all bytes were taken.
unfoldable pub fwrite_bytes : List ℕ → WaveFile → Bool × WaveFile
fwrite_bytes bs f =
    let taken = take (f.limit - f.pos) bs in
    (
      leb (length bs) (f.limit - f.pos),
      record f { bytes = overwrite f.pos taken f.bytes; pos = f.pos + length taken },
    )

-- `writeWaveInfo`, which goes to the start of the file; `fseek` is taken to succeed there.
unfoldable pub store_wave_info : WaveInfo → WaveFile → Bool × WaveFile
store_wave_info info f = fwrite_bytes (write_wave_info info) (record f { pos = 0 })

-- The constructor; where the header cannot be written, the writer has no file.
unfoldable pub open_writer : WaveFile → WaveInfo → ByteWriter
open_writer f info =
    let info' = record info { num_samples = 0 } in
    let (ok, f') = store_wave_info info' f in
    if ok then record { file = some f'; info = info' } else record { file = none; info = no_info }

-- The destructor: the file that is closed.
unfoldable pub close_writer : ByteWriter → Option WaveFile
close_writer w = do f ← w.file; some (store_wave_info w.info f).1

unfoldable pub release_writer : ByteWriter → Option WaveFile × ByteWriter
release_writer w = (close_writer w, record { file = none; info = no_info })

unfoldable pub move_writer : ByteWriter → ByteWriter → Option WaveFile × ByteWriter × ByteWriter
move_writer w other = (close_writer w, other, record other { file = none })

-- The bytes of a value, the lowest first, and those of the first values of a sequence.
abbrev pub value_bytes : ℕ → ℕ → List ℕ
value_bytes zero v = []
value_bytes (suc k) v = v % 256 ∷ value_bytes k (v / 256)

abbrev pub values_bytes : ℕ → (ℕ → ℕ) → ℕ → List ℕ
values_bytes k value zero = []
values_bytes k value (suc n) = values_bytes k value n ++ value_bytes k (value n)

-- The values that can be written behind the position.
abbrev pub values_behind : ℕ → WaveFile → File ℕ
values_behind k f = record { value_at = λ x. 0; size = 0; pos = 0; room = (f.limit - f.pos) / k }

module _ {F : Type 0} (memory : ℕ → ℕ) (encode16 encode32 encode_float : F → ℕ) where
  -- `WaveWriter::write`, where the values that its calls of `fwrite` hand over are bytes of the file.
  unfoldable pub write_samples : AudioBlock F → ByteWriter → Option (Bool × ByteWriter)
  write_samples source w = do
    f ← w.file
    let k = w.info.bits_per_sample / 8
    (ok, w') ←
        write memory encode16 encode32 encode_float source
          (record { file = some (values_behind k f); info = w.info })
    values ← w'.file
    some (
      ok,
      record {
        file = some (fwrite_bytes (values_bytes k values.value_at values.pos) f).1;
        info = w'.info;
      },
    )
