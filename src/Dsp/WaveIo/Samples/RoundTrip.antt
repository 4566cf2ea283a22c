-- ===== src/Dsp/WaveIo/Samples/RoundTrip.antt =====
-- A block that is written to a file is read back from it.
use v1util.Common.{ℕ, ◌+◌, ◌*◌, ◌≤◌, ◌<◌, ◌≡◌, ap, ap₂, ◌∙◌, Option, some, ◌>>=◌, arith}
use native.Mathlib.Nat.{add-mul, mul-le-mul_right}
use v1util.Dsp.WaveIo.Samples.{
  File, Span, AudioBlock, convert_interleave_write, read_deinterleave_convert,
}
use v1util.Dsp.WaveIo.Samples.Frames.{frame-mod, frame-div}
use v1util.Dsp.WaveIo.Samples.Write.{convert_interleave_write-Wrote}
use v1util.Dsp.WaveIo.Samples.Read.{read_deinterleave_convert-Loaded}

module _ {V F : Type 0} (encode : F → V) (decode : V → F) where
  -- A program that writes a block, goes back and reads as many samples: how many it got, and the block.
  unfoldable pub write_then_read :
      AudioBlock F → Span V → Span V → AudioBlock F → File V → Option (ℕ × AudioBlock F)
  write_then_read source out_buffer in_buffer target file = do
    (ok, written) ← convert_interleave_write encode source out_buffer file
    (samples_read, read, file') ←
        read_deinterleave_convert decode in_buffer source.num_samples source.num_channels target
          (record written { pos = file.pos })
    some (samples_read, read)

  -- For a block with channels, buffers of whole frames of any two sizes, a file at its end with room for
  -- the block, and a target of as many channels and at least as many samples: all samples are written and
  -- read, and each is what the two conversions make of it.
  pub write_then_read-samples :
      (source target : AudioBlock F) (out_frames in_frames : ℕ) (out_buffer in_buffer : Span V)
      (file : File V)
      → 0 < source.num_channels
      → 0 < out_frames
      → 0 < in_frames
      → out_buffer.size ≡ out_frames * source.num_channels
      → in_buffer.size ≡ in_frames * source.num_channels
      → file.size ≡ file.pos
      → source.num_samples * source.num_channels ≤ file.room
      → target.num_channels ≡ source.num_channels
      → source.num_samples ≤ target.num_samples
      → (read : AudioBlock F) × (write_then_read source out_buffer in_buffer target file
          ≡ some (source.num_samples, read))
        × ((chan i : ℕ)
            → chan < source.num_channels
            → i < source.num_samples
            → read.sample chan i ≡ decode (encode (source.sample chan i)))
  unfolding write_then_read
  write_then_read-samples source target out_frames in_frames out_buffer in_buffer file p q r os is
        at room same fits =
      let n = source.num_samples in
      let c = source.num_channels in
      let w =
        convert_interleave_write-Wrote encode source out_frames out_buffer file p q os (omega arith)
          room in
      let rewound : File V = record w.file { pos = file.pos } in
      let l =
        read_deinterleave_convert-Loaded decode c p n n in_frames in_buffer target rewound r is same
          (omega arith) fits (omega (arith, w.extent)) in
      (
        l.target,
        rw (w.returns, ◌>>=◌, l.returns, ◌>>=◌),
        λ chan i h g.
            l.values chan i h g
            ∙ ap decode (
                w.values (chan + i * c) (
                  omega
                    (arith, add-mul i 1 c, mul-le-mul_right {m = i + 1} {n = n} c (omega arith)))
                ∙ ap₂ (λ j k. encode (source.sample j k)) (frame-mod c i chan h)
                    (frame-div c i chan h)),
      )
