-- ===== src/Callable/Function/Bind/Calls.antt =====
-- Functions call what they are bound to.
use v1util.Common.{ℕ, ◌%◌, ◌≡◌, ◌≢◌, ◌↔◌, refl, false, some, [], ◌∷◌, ◌++◌, ◌>>=◌, arith}
use v1util.Common.Word.{add64}
use v1util.Base.VTable.{target, dispatch}
use v1util.Base.VTable.Dispatch.{IsAligned, resolve_itanium-target}
use v1util.Callable.Delegate.{
  Code, compiled, free_trampoline, member_trampoline, Invoked, Placement, run_code,
}
use v1util.Callable.Function.{FunctionBase, set_trampoline, has_heap_object, has_embedded_storage}
use v1util.Callable.Function.World.{World, construct_static, step}
use v1util.Callable.Function.Invoke.{call, trampoline, storage}
use v1util.Callable.Function.Bind.{
  Binding, constructs_free, binds_fast, binds_safe, bind, from_free, bind_mem_fn_fast,
  bind_mem_fn_safe, meaning,
}

module _ (load : ℕ → ℕ) (code : ℕ → Code) where
  -- A call of the newest function of `next`, which is at `self`, reaches `i`.
  pub record Reaches (w next : World) (self : ℕ) (i : Invoked) : Type 0 where
    pub function : FunctionBase
    pub heap : next.heap ≡ w.heap
    pub functions : next.functions ≡ w.functions ++ some function ∷ []
    pub reached :
        (call self function >>= λ c. some (run_code load code (code (c.0)) (c.0) (c.1))) ≡ some i

  static-Reaches :
      (w : World) (self p object : ℕ) (c : Code)
      → p % 4 ≡ 0
      → p ≢ 0
      → code p ≡ c
      → (next : World) × (step (construct_static p object) w ≡ some next)
        × Reaches w next self (run_code load code c p object)
  unfolding step set_trampoline call trampoline storage has_heap_object has_embedded_storage
  static-Reaches w self p object c aligned positive e =
      let f : FunctionBase = record { storage = object; trampoline = p } in
      let tagged : set_trampoline p false false ≡ some p = ground arith in
      let called : call self f ≡ some (p, object) = ground arith in
      (
        record { heap = w.heap; functions = w.functions ++ some f ∷ [] },
        rw tagged,
        record { function = f; heap = refl; functions = refl; reached = rw (called, e) },
      )

  module _ (place : Placement) where
    -- The code that a binding uses stands at an address that leaves the tags free and is not the null
    -- pointer.
    abbrev IsPlaced : ℕ → Code → Type 0
    IsPlaced p c = (p % 4 ≡ 0) × (p ≢ 0) × (code p ≡ c)

    abbrev pub IsLinked : Binding → Type 0
    IsLinked (constructs_free f) = IsPlaced place.constructed_free free_trampoline
    IsLinked (binds_fast m adjustment class) = IsPlaced (target load m class) compiled × IsAligned m
    IsLinked (binds_safe m adjustment class) =
        IsPlaced (place.bound_member m adjustment) (member_trampoline m adjustment)

    -- A member function that is bound fast is the same in the table of the object and of the adjusted one.
    abbrev pub HasOneTarget : Binding → Type 0
    HasOneTarget (binds_fast m adjustment class) =
        target load m class ≡ target load m (add64 class adjustment)
    HasOneTarget b = Unit

    -- The binding makes a function without touching the heap, and a call of it reaches what is bound if
    -- and only if a condition holds.
    pub record Binds (b : Binding) (w : World) (self : ℕ) : Type 0 where
      pub next : World
      pub invoked : Invoked
      pub steps : step (bind load place b) w ≡ some next
      pub reaches : Reaches w next self invoked
      pub exact : (invoked ≡ meaning load b) ↔ HasOneTarget b

    -- Where the code of a binding is at a multiple of 4 and not at the null pointer, and a function that
    -- is bound fast is at an even address: the binding makes a function without touching the heap. A call
    -- of it reaches what is bound for a free function and for the safe binding, and for the fast binding
    -- exactly if the member function is the same in the tables of the object and of the adjusted object.
    pub call-bind_function : (b : Binding) (w : World) (self : ℕ) → IsLinked b → Binds b w self
    unfolding bind meaning from_free bind_mem_fn_fast bind_mem_fn_safe run_code dispatch
    call-bind_function (constructs_free f) w self (aligned, positive, e) =
        let (next, steps, reaches) =
          static-Reaches w self place.constructed_free f free_trampoline aligned positive e in
        record {
          next = next;
          invoked = _;
          steps = steps;
          reaches = reaches;
          exact = ((λ _. tt), (λ _. refl));
        }
    call-bind_function (binds_fast m adjustment class) w self ((aligned, positive, e), even) =
        let (next, steps, reaches) =
          static-Reaches w self (target load m class) (add64 class adjustment) compiled aligned
            positive e in
        record {
          next = next;
          invoked = _;
          steps = rw (resolve_itanium-target load m adjustment class even) steps;
          reaches = reaches;
          exact = ((λ h. cc), (λ h. cc));
        }
    call-bind_function (binds_safe m adjustment class) w self (aligned, positive, e) =
        let (next, steps, reaches) =
          static-Reaches w self (place.bound_member m adjustment) class
            (member_trampoline m adjustment) aligned positive e in
        record {
          next = next;
          invoked = _;
          steps = steps;
          reaches = reaches;
          exact = ((λ _. tt), (λ _. refl));
        }
