-- ===== src/Lib.antt =====
-- v1util, a toolbelt of C++ headers: containers, signal processing, arithmetic.
--
-- Parts and files:
--   * Container/RingBuffer models `ChunkedRingBuffer` of container/ringbuffer.hpp: the record holds
--     `mCapacity`, the storage at `mpData` as a list of `mCapacity` elements, and `mpHead` and `mpTail` as
--     indices into it.
--     RingBuffer/Bulk has `fillFrom` and `drainTo` with their copying loops, Container/FixedSizeDeque
--     the class that extends the buffer. RingBuffer/Holds is the abstract view, a sequence.
--     Container/RingIterator models `RingIterator` of the same header over indices.
--   * Container/DequeClient has the calls that a client can make and runs them on the buffer and on a
--     bounded sequence. Container/Deque is the interface that the peak finder uses, with its laws;
--     Container/RingDeque fills it with the ring buffer.
--   * Dsp/PeakFinder/MaximaFinder models `SlidingWindowLocalMaximaFinder` of dsp/peakfinder.hpp over
--     that interface, Dsp/PeakFinder/Detector models `StreamingPeakDetector`: `on_sample` is the body
--     of the loop of `process`, and the calls of its handler are the list of raw peaks.
--     Dsp/PeakFinder/Isolator models `SlidingWindowDominantPeakIsolator` over two such deques, and
--     Dsp/PeakFinder/Streaming `StreamingPeakFinder`, which feeds the detector's raw peaks to the isolator:
--     Streaming/Peaks couples the two on a whole stream, Streaming/Process is about the first call of `process`.
--     Dsp/PeakFinder/FindPeak models `findPeak` and `isPlateauTooLong`, with iterators as indices.
--   * Dsp/WaveIo models `writeWaveInfo`, `readInfo` and `seekToChunk` of dsp/waveIo.cpp over a file as the
--     list of its bytes, WaveIo/Samples the loops that read and write samples in buffers and WaveIo/Streams
--     `WaveReader` and the loops of `WaveWriter::write` on a file of values; the conversion of a sample is a
--     parameter there. WaveIo/Writer has `WaveWriter` on one file of bytes, in which the header is written
--     over the start, with its life from opening to closing in Writer/Lifecycle.
--   * Base/Math models the ring comparisons and the unsigned divisions of base/math.hpp.
--   * Base/BitOp models `alignUp`, `isPow2` and `nextPow2` of base/bitop.hpp.
--   * Base/Time models `TscStamp` and `TscDiff` of base/time.hpp, Time/Seconds the conversions of
--     base/time.cpp for any frequency; signed overflow is `none`.
--   * Callable/Function models `FunctionBase` of callable/function.hpp and callable/function.cpp: the heap
--     is a list of headers, an object's address its place there. Function/World runs the constructors,
--     assignments and destructors of a program's functions as steps; Function/Invoke has calls and
--     comparisons, Function/Bind the bindings to free and member functions.
--   * Callable/Delegate models `Delegate` of callable/delegate.hpp on POSIX, Base/VTable the resolving of
--     pointers to member functions in base/cppvtable.hpp. Arguments and results of calls have no model;
--     memory, and what stands at an address of code, are parameters.
--   * Container/ArrayView models `ArrayView` of container/array_view.hpp: `mpBegin` and `mpEnd` are addresses,
--     0 is the null pointer. Container/Span models `Span` of container/span.hpp in the same way, with
--     the writes through its references.
--   * Container/Range models `ItRange` and the algorithms of container/range.hpp, for pointers as iterators.
--   * Container/Result models `Result` of container/result.hpp, with the count of the live objects that its
--     storage constructs and destroys; a program's results are numbered, and an assignment may name one twice.
--
-- An assertion that fires (`V1_ASSERT`, as a debug build has it) and an access out of range are `none`.
-- `size_t` is a native number below 2 ^ 64 with its wrap-around written out (Common/Word). Sample values
-- are unsigned; a wave file's sample rate is a whole number. The offset of a ring
-- iterator is an `int64_t`, and its overflow is `none`.
--
-- Fuel: the `while` loops of the maximum finder get one more than the deque's size, which is enough since
-- each turn takes an element, and the walk to the right of `findPeak` gets one more than the sequence's
-- length; `seekToChunk` gets the length of the file, which holds no more chunks than bytes; the other
-- loops are structural.
--
-- Not modelled: floating-point code (chirps, regression), threads, tracing, output, file names, the
-- vendored libraries, and memory management as such (a buffer's storage is a list).
pub mod Base
pub mod Callable
pub mod Common
pub mod Container
pub mod Dsp
