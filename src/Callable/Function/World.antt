-- ===== src/Callable/Function/World.antt =====
-- A program with its functions and the heap: the constructors, assignments and the destructor of
-- `FunctionBase` as steps on both.
use v1util.Common.{
  ℕ, ◌%◌, ◌==◌, ◌&&◌, Bool, true, false, Option, none, some, List, [], ◌∷◌, ◌++◌, get_elem?, set,
  ◌>>=◌,
}
use v1util.Callable.Function.{
  FunctionBase, Heap, set_trampoline, create_heap_object, copy_object, release,
}

-- `none` in a slot is a function that has been destroyed.
pub record World : Type 0 where
  pub heap : Heap
  pub functions : List (Option FunctionBase)

-- A function that is constructed takes the next slot.
pub data Call : Type 0 where
  construct_default : Call
  construct_static construct_embedded : ℕ → ℕ → Call
  construct_heap : ℕ → Call
  construct_copy construct_move destroy : ℕ → Call
  assign_copy assign_move : ℕ → ℕ → Call

abbrev pub lookup : List (Option FunctionBase) → ℕ → Option FunctionBase
lookup fs k = get_elem? fs k >>= λ f. f

abbrev pub constructed : FunctionBase → Heap → List (Option FunctionBase) → Option World
constructed f heap fs = some (record { heap = heap; functions = fs ++ some f ∷ [] })

unfoldable pub step : Call → World → Option World
step construct_default w = constructed (record { storage = 0; trampoline = 0 }) w.heap w.functions
step (construct_static p object) w = do
  t ← set_trampoline p false false
  constructed (record { storage = object; trampoline = t }) w.heap w.functions
step (construct_embedded p bytes) w = do
  t ← set_trampoline p false true
  constructed (record { storage = bytes; trampoline = t }) w.heap w.functions
step (construct_heap p) w = do
  (f, heap) ← create_heap_object p w.heap
  constructed f heap w.functions
step (construct_copy src) w = do
  other ← lookup w.functions src
  heap ← copy_object other w.heap
  constructed other heap w.functions
step (construct_move src) w = do
  other ← lookup w.functions src
  constructed other w.heap (set w.functions src (some (record other { trampoline = 0 })))
step (assign_copy dst src) w = do
  old ← lookup w.functions dst
  other ← lookup w.functions src
  heap ← copy_object other w.heap
  heap' ← release old heap
  some (record { heap = heap'; functions = set w.functions dst (some other) })
step (assign_move dst src) w = do
  old ← lookup w.functions dst
  other ← lookup w.functions src
  heap ← release old w.heap
  some (record {
    heap = heap;
    functions = set (set w.functions dst (some other)) src (some (record other { trampoline = 0 }));
  })
step (destroy k) w = do
  old ← lookup w.functions k
  heap ← release old w.heap
  some (record { heap = heap; functions = set w.functions k none })

unfoldable pub run : List Call → World → Option World
run [] w = some w
run (c ∷ cs) w = step c w >>= λ w'. run cs w'

abbrev pub empty_world : World
empty_world = record { heap = []; functions = [] }

-- What a program has to keep to: it names functions that live, and code addresses are aligned.
abbrev pub lives : List Bool → ℕ → Bool
lives slots k = elim (get_elem? slots k) [ none ↦ false | some b ↦ b ]

abbrev pub allowed : Call → List Bool → Bool
allowed construct_default slots = true
allowed (construct_static p object) slots = p % 4 == 0
allowed (construct_embedded p bytes) slots = p % 4 == 0
allowed (construct_heap p) slots = p % 4 == 0
allowed (construct_copy src) slots = lives slots src
allowed (construct_move src) slots = lives slots src
allowed (assign_copy dst src) slots = lives slots dst && lives slots src
allowed (assign_move dst src) slots = lives slots dst && lives slots src
allowed (destroy k) slots = lives slots k

abbrev pub after : Call → List Bool → List Bool
after (assign_copy dst src) slots = slots
after (assign_move dst src) slots = slots
after (destroy k) slots = set slots k false
after c slots = slots ++ true ∷ []

abbrev pub all_allowed : List Call → List Bool → Bool
all_allowed [] slots = true
all_allowed (c ∷ cs) slots = allowed c slots && all_allowed cs (after c slots)
