-- ===== src/Dsp/WaveIo/Writer/Lifecycle.antt =====
-- A wave file from the opening of its writer to the closing.
use v1util.Common.{
  ℕ, ◌+◌, ◌-◌, ◌*◌, ◌/◌, ◌%◌, ◌^◌, ◌≤◌, ◌<◌, ◌≡◌, sym, ap, ap₂, ◌∙◌, Bool, true, ◌&&◌, Option, some,
  List, [], ◌∷◌, ◌++◌, append-nil, append_assoc, length, length-append, ◌>>=◌, arith,
}
use native.Mathlib.Nat.{le-div_iff_mul-le}
use v1util.Dsp.WaveIo.{WaveInfo, read_info, write_wave_info}
use v1util.Dsp.WaveIo.RoundTrip.{info, read_info-write_wave_info}
use v1util.Dsp.WaveIo.Samples.{AudioBlock}
use v1util.Dsp.WaveIo.Streams.{encoder}
use v1util.Dsp.WaveIo.Streams.Writes.{counted, total, AllHave, write-Wrote}
use v1util.Dsp.WaveIo.Writer.{
  WaveFile, ByteWriter, store_wave_info, open_writer, close_writer, values_bytes, values_behind,
  write_samples,
}
use v1util.Dsp.WaveIo.Writer.Bytes.{
  at_end, fwrite_bytes-end, fwrite_bytes-start, length-values_bytes, values_bytes-cong,
  length-header,
}

below-product : (c n : ℕ) → 0 < c → c * n < 2 ^ 32 → n < 2 ^ 32
below-product c n h k = grind arith

module _ {F : Type 0} (encode : F → ℕ) (c k : ℕ) where
  -- The bytes of a block frame by frame, and of blocks one behind the other.
  abbrev pub block_bytes : AudioBlock F → List ℕ
  block_bytes b = values_bytes k (λ x. encode (b.sample (x % c) (x / c))) (b.num_samples * c)

  abbrev pub data_bytes : List (AudioBlock F) → List ℕ
  data_bytes [] = []
  data_bytes (b ∷ bs) = block_bytes b ++ data_bytes bs

abbrev byte_writer : List ℕ → ℕ → WaveInfo → ByteWriter
byte_writer bytes limit w = record { file = some (at_end bytes limit); info = w }

module _ {F : Type 0} (memory : ℕ → ℕ) (encode16 encode32 encode_float : F → ℕ) where
  -- A client that writes blocks: whether all of them were written.
  unfoldable pub write_all : List (AudioBlock F) → ByteWriter → Option (Bool × ByteWriter)
  write_all [] w = some (true, w)
  write_all (b ∷ bs) w = do
    (ok, w') ← write_samples memory encode16 encode32 encode_float b w
    (rest, w'') ← write_all bs w'
    some (ok && rest, w'')

  -- A client that opens a writer, writes blocks and closes the writer.
  unfoldable pub write_file : WaveFile → WaveInfo → List (AudioBlock F) → Option (Bool × WaveFile)
  write_file f w blocks = do
    (ok, w') ← write_all blocks (open_writer f w)
    closed ← close_writer w'
    some (ok, closed)

  module _ (encode : F → ℕ) where
    write_samples-stores :
        (b : AudioBlock F) (old : List ℕ) (limit : ℕ) (w : WaveInfo)
        → b.num_channels ≡ w.num_channels
        → 0 < w.num_channels
        → 0 < w.bits_per_sample / 8
        → encoder memory encode16 encode32 encode_float w ≡ some encode
        → length old + length (block_bytes encode w.num_channels (w.bits_per_sample / 8) b) ≤ limit
        → w.num_samples + b.num_samples < 2 ^ 32
        → write_samples memory encode16 encode32 encode_float b (byte_writer old limit w)
          ≡ some (
            true,
            byte_writer
                (old ++ block_bytes encode w.num_channels (w.bits_per_sample / 8) b)
                limit
                (counted w b.num_samples),
          )
    unfolding write_samples
    write_samples-stores b old limit w same positive bits chosen fits small =
        let c = w.num_channels in
        let k = w.bits_per_sample / 8 in
        let n = b.num_samples * c in
        let content : ℕ → ℕ = λ x. encode (b.sample (x % c) (x / c)) in
        let size = length-values_bytes k content n in
        let room : n ≤ (limit - length old) / k = (le-div_iff_mul-le bits).1 (omega arith) in
        let (m, d, e) =
          write-Wrote memory encode16 encode32 encode_float encode b
            (values_behind k (at_end old limit)) w same positive bits chosen (omega arith) room
            small in
        let end : d.file.pos ≡ n = omega (arith, d.end, ap (λ z. b.num_samples * z) same) in
        let bytes : values_bytes k d.file.value_at n ≡ values_bytes k content n =
          values_bytes-cong k d.file.value_at content n (λ x h.
            let place : x ≡ 0 + x = omega arith in
            ap d.file.value_at place
            ∙ d.values x (omega (arith, ap (λ z. b.num_samples * z) same))
            ∙ ap (λ z. encode (b.sample (x % z) (x / z))) same) in
        rw (e, ◌>>=◌, end, bytes, fwrite_bytes-end (values_bytes k content n) old limit fits)

    write_all-appends :
        (blocks : List (AudioBlock F)) (old : List ℕ) (limit : ℕ) (w : WaveInfo)
        → AllHave w.num_channels blocks
        → 0 < w.num_channels
        → 0 < w.bits_per_sample / 8
        → encoder memory encode16 encode32 encode_float w ≡ some encode
        → length old + length (data_bytes encode w.num_channels (w.bits_per_sample / 8) blocks)
          ≤ limit
        → w.num_samples + total blocks < 2 ^ 32
        → write_all blocks (byte_writer old limit w)
          ≡ some (
            true,
            byte_writer
                (old ++ data_bytes encode w.num_channels (w.bits_per_sample / 8) blocks)
                limit
                (counted w (total blocks)),
          )
    unfolding write_all encoder
    write_all-appends [] old limit w all positive bits chosen fits small =
        let count : w.num_samples ≡ w.num_samples + 0 = omega arith in
        ap₂ (λ bs n. some (true, byte_writer bs limit (record w { num_samples = n })))
          (sym (append-nil old)) count
    write_all-appends (b ∷ bs) old limit w (same, all) positive bits chosen fits small =
        let c = w.num_channels in
        let k = w.bits_per_sample / 8 in
        let block = block_bytes encode c k b in
        let rest = data_bytes encode c k bs in
        let lengths = length-append block rest in
        let longer = length-append old block in
        let one =
          write_samples-stores b old limit w same positive bits chosen (omega arith)
            (omega arith) in
        let others =
          write_all-appends bs (old ++ block) limit (counted w b.num_samples) all positive bits
            chosen (omega arith) (omega arith) in
        let count : w.num_samples + b.num_samples + total bs
            ≡ w.num_samples + (b.num_samples + total bs) =
          omega arith in
        rw (one, ◌>>=◌, others, ◌>>=◌)
          (ap₂ (λ bytes n. some (true, byte_writer bytes limit (record w { num_samples = n })))
            (append_assoc old block rest) count)

    open_writer-empty :
        (w : WaveInfo) (pos limit : ℕ)
        → length (write_wave_info (record w { num_samples = 0 })) ≤ limit
        → open_writer (record { bytes = []; pos = pos; limit = limit }) w
          ≡ byte_writer
              (write_wave_info (record w { num_samples = 0 }))
              limit
              (record w { num_samples = 0 })
    unfolding open_writer store_wave_info
    open_writer-empty w pos limit h =
        rw
          (fwrite_bytes-end (write_wave_info (record w { num_samples = 0 })) [] limit (omega arith))

  -- For 1 to 31 bytes per value that the writer can encode, at least one channel, a rate below 2 ^ 32,
  -- channels and bytes per frame below 2 ^ 16, values and bytes in all below 2 ^ 32, blocks of as many
  -- channels, and an empty file that can grow to the header and the data: all blocks are written; the
  -- file that is closed is the header for the sum of the blocks' samples, whatever the count that the
  -- writer was given, and behind it the bytes of the blocks, one behind the other and frame by frame; and
  -- it is read back as the format with that sum.
  pub write_file-read_info :
      (encode : F → ℕ) (nc ns rate k : ℕ) (float : Bool) (blocks : List (AudioBlock F))
      (pos limit : ℕ)
      → encoder memory encode16 encode32 encode_float (info nc 0 rate k float) ≡ some encode
      → 0 < nc
      → 0 < k
      → k < 32
      → rate < 2 ^ 32
      → nc < 2 ^ 16
      → nc * k < 2 ^ 16
      → nc * total blocks < 2 ^ 32
      → nc * total blocks * k < 2 ^ 32
      → AllHave nc blocks
      → length (write_wave_info (info nc 0 rate k float)) + length (data_bytes encode nc k blocks)
        ≤ limit
      → (closed : WaveFile) × (write_file
            (record { bytes = []; pos = pos; limit = limit })
            (info nc ns rate k float)
            blocks
          ≡ some (true, closed))
        × (closed.bytes
            ≡ write_wave_info (info nc (total blocks) rate k float)
              ++ data_bytes encode nc k blocks)
        × (read_info closed.bytes ≡ some (info nc (total blocks) rate k float))
  unfolding write_file close_writer store_wave_info encoder
  write_file-read_info encode nc ns rate k float blocks pos limit chosen positive some_bytes wide
        small few frame values size all fits =
      let w = info nc 0 rate k float in
      let header = write_wave_info w in
      let values_part = data_bytes encode nc k blocks in
      let bits : 8 * k / 8 ≡ k = omega arith in
      let fewer : total blocks < 2 ^ 32 = below-product nc (total blocks) positive values in
      let same_data : data_bytes encode nc (8 * k / 8) blocks ≡ values_part =
        ap (λ z. data_bytes encode nc z blocks) bits in
      let opened = open_writer-empty encode (info nc ns rate k float) pos limit (omega arith) in
      let writes =
        write_all-appends encode blocks header limit w all positive (omega arith) chosen
          (omega (arith, ap length same_data)) (omega arith) in
      let same_length = length-header nc (0 + total blocks) 0 rate k float in
      let (stored, bytes) =
        fwrite_bytes-start (write_wave_info (counted w (total blocks))) header values_part limit
          same_length (omega arith) in
      let count : 0 + total blocks ≡ total blocks = omega arith in
      let contents =
        bytes ∙ ap (λ n. write_wave_info (info nc n rate k float) ++ values_part) count in
      (
        (store_wave_info (counted w (total blocks)) (at_end (header ++ values_part) limit)).1,
        rw (opened, writes, ◌>>=◌, same_data),
        contents,
        ap read_info contents
            ∙ read_info-write_wave_info nc (total blocks) rate k float values_part positive
                some_bytes wide small few frame values size,
      )
