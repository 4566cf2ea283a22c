-- ===== src/Dsp/PeakFinder/MaximaFinder/Tests.antt =====
-- Runs of the window maximum over the ring buffer of the source.
use v1util.Common.{ℕ, ◌≡◌, refl, Option, some, List, [], ◌∷◌, ◌>>=◌, take, arith}
use v1util.Container.Deque.{Deque}
use v1util.Common.Word.{add64, sub64}
use v1util.Container.RingBuffer
use v1util.Container.FixedSizeDeque
use v1util.Container.Deque.Loops.{pop_back_while, pop_front_while}
use v1util.Container.RingDeque.{ring_deque}
use v1util.Dsp.PeakFinder.MaximaFinder.{Candidate, Finder, make, add, retire, add_all, finalize}
use v1util.Dsp.PeakFinder.MaximaFinder.Correct.{
  windowed_maxima, add_all-windowed_maxima, reverse_onto,
}
use v1util.Dsp.PeakFinder.MaximaFinder.Skyline.{maximum}

abbrev ring : Deque Candidate
ring = ring_deque (record { sample_pos = 0; value = 0 })

abbrev samples : List ℕ
samples = 3 ∷ 1 ∷ 4 ∷ 1 ∷ 2 ∷ 0 ∷ 0 ∷ []

windowed_maxima_run : windowed_maxima 3 [] samples ≡ 0 ∷ 0 ∷ 0 ∷ 4 ∷ 4 ∷ 4 ∷ 2 ∷ []
windowed_maxima_run = refl

-- Evaluates through every layer down to the storage.
outputs : ℕ → List ℕ → Option (List ℕ)
unfolding make add_all add retire pop_back_while pop_front_while RingBuffer.size
    RingBuffer.set_capacity RingBuffer.empty RingBuffer.full RingBuffer.usable_capacity
    RingBuffer.store RingBuffer.load RingBuffer.peek RingBuffer.drop FixedSizeDeque.push_back
    FixedSizeDeque.before FixedSizeDeque.back FixedSizeDeque.pop_back FixedSizeDeque.front
    FixedSizeDeque.pop_front add64 sub64
outputs window vs = do f ← make ring window; (retvals, _) ← add_all ring vs f; some retvals

outputs_run : outputs 3 samples ≡ some (0 ∷ 0 ∷ 0 ∷ 4 ∷ 4 ∷ 4 ∷ 2 ∷ [])
unfolding outputs
outputs_run = refl

add_all-windowed_maxima_example :
    (start end : Finder ring) × (make ring 3 ≡ some start)
    × (add_all ring samples start ≡ some (windowed_maxima 3 [] samples, end))
    × (finalize ring end ≡ some (maximum (take 3 (reverse_onto samples []))))
add_all-windowed_maxima_example = add_all-windowed_maxima ring 3 samples (omega arith) (omega arith)
