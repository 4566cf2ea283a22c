-- ===== src/Callable/Delegate/Calls.antt =====
-- Delegates call what they are bound to.
use v1util.Common.{ℕ, ◌≡◌, ◌≢◌, ◌↔◌, Option, sym, ◌∙◌, ◌==◌, true, false, some, arith}
use v1util.Common.Word.{add64}
use v1util.Base.VTable.{target, dispatch}
use v1util.Base.VTable.Dispatch.{IsAligned, resolve_itanium-target}
use v1util.Callable.Delegate.{
  Invoked, Code, compiled, free_trampoline, invocable_trampoline, member_trampoline, Placement,
  Delegate, equal, run_code, call, from_free, from_invocable, bind_free, bind_invocable,
  bind_mem_fn_fast, bind_mem_fn_safe, Binding, constructs_free, binds_free, constructs_invocable,
  binds_invocable, binds_fast, binds_safe, bind, meaning,
}

call-at :
    (load : ℕ → ℕ) (code : ℕ → Code) (object trampoline : ℕ) (c : Code)
    → object ≢ 0
    → trampoline ≢ 0
    → code trampoline ≡ c
    → call load code (record { object = object; trampoline = trampoline })
      ≡ some (run_code load code c trampoline object)
unfolding call
call-at load code object trampoline c h k e =
    let some_object : (object == 0) ≡ false = ground arith in
    let some_trampoline : (trampoline == 0) ≡ false = ground arith in
    rw (some_object, some_trampoline, e)

module _ (load : ℕ → ℕ) (code : ℕ → Code) (place : Placement) where
  -- The lambda that a binding uses stands where the compiler has put it, not at the null pointer; the
  -- fast binding uses the function itself.
  abbrev pub IsLinked : Binding → Type 0
  IsLinked (constructs_free f) =
      (place.constructed_free ≢ 0) × (code place.constructed_free ≡ free_trampoline)
  IsLinked (binds_free f) = (place.bound_free ≢ 0) × (code place.bound_free ≡ free_trampoline)
  IsLinked (constructs_invocable type a) =
      (place.constructed_invocable type ≢ 0)
      × (code (place.constructed_invocable type) ≡ invocable_trampoline type)
  IsLinked (binds_invocable type a) =
      (place.bound_invocable type ≢ 0)
      × (code (place.bound_invocable type) ≡ invocable_trampoline type)
  IsLinked (binds_fast m adjustment class) =
      (target load m class ≢ 0) × (code (target load m class) ≡ compiled)
  IsLinked (binds_safe m adjustment class) =
      (place.bound_member m adjustment ≢ 0)
      × (code (place.bound_member m adjustment) ≡ member_trampoline m adjustment)

  -- What is bound is not at the null pointer, and a function that is bound fast is at an even address.
  abbrev pub IsBindable : Binding → Type 0
  IsBindable (constructs_free f) = f ≢ 0
  IsBindable (binds_free f) = f ≢ 0
  IsBindable (constructs_invocable type a) = a ≢ 0
  IsBindable (binds_invocable type a) = a ≢ 0
  IsBindable (binds_fast m adjustment class) = (add64 class adjustment ≢ 0) × IsAligned m
  IsBindable (binds_safe m adjustment class) = class ≢ 0

  -- A member function that is bound fast is the same in the table of the object and of the adjusted one.
  abbrev pub HasOneTarget : Binding → Type 0
  HasOneTarget (binds_fast m adjustment class) =
      target load m class ≡ target load m (add64 class adjustment)
  HasOneTarget b = Unit

  reaches : {m : Option Invoked} {i : Invoked} → m ≡ some i → (m ≡ some i) ↔ Unit {0}
  reaches e = ((λ _. tt), (λ _. e))

  -- Where the code that a binding uses is linked, what it binds is not at the null pointer, and a function
  -- that is bound fast is at an even address: a delegate that is made from a free function, a callable object
  -- or with the safe binding of a member function calls what it is bound to, and one that is made with the
  -- fast binding does exactly if the function is the same in the tables of the object and of the adjusted
  -- object.
  pub call-bind :
      (b : Binding)
      → IsLinked b
      → IsBindable b
      → (call load code (bind load place b) ≡ some (meaning load b)) ↔ HasOneTarget b
  unfolding bind meaning run_code from_free from_invocable bind_free bind_invocable bind_mem_fn_fast
      bind_mem_fn_safe dispatch
  call-bind (constructs_free f) l h =
      reaches (call-at load code f place.constructed_free free_trampoline h l.0 l.1)
  call-bind (binds_free f) l h =
      reaches (call-at load code f place.bound_free free_trampoline h l.0 l.1)
  call-bind (constructs_invocable type a) l h =
      reaches (
        call-at load code a (place.constructed_invocable type) (invocable_trampoline type) h l.0
          l.1)
  call-bind (binds_invocable type a) l h =
      reaches
        (call-at load code a (place.bound_invocable type) (invocable_trampoline type) h l.0 l.1)
  call-bind (binds_fast m adjustment class) l (some_object, even) =
      let called =
        call-at load code (add64 class adjustment) (target load m class) compiled some_object l.0
          l.1 in
      rw (resolve_itanium-target load m adjustment class even, called) ((λ e. cc), (λ e. cc))
  call-bind (binds_safe m adjustment class) l h = reaches (
      call-at load code class (place.bound_member m adjustment) (member_trampoline m adjustment) h
        l.0 l.1)

  equal-eq : (d e : Delegate) → equal d e ≡ true → call load code d ≡ call load code e
  unfolding equal call
  equal-eq d e h =
      let same_object : d.object ≡ e.object = ground arith in
      let same_trampoline : d.trampoline ≡ e.trampoline = ground arith in
      rw (same_object, same_trampoline)

  -- Two delegates whose code is linked, so that no two lambdas share an address, that bind nothing at the
  -- null pointer, and whose member functions, where they are bound fast, are at even addresses and the same
  -- in the tables of the object and of the adjusted object: if they compare as equal, they are bound to the
  -- same.
  pub equal-meaning :
      (a b : Binding)
      → IsLinked a
      → IsBindable a
      → HasOneTarget a
      → IsLinked b
      → IsBindable b
      → HasOneTarget b
      → equal (bind load place a) (bind load place b) ≡ true
      → meaning load a ≡ meaning load b
  equal-meaning a b l h t l' k t' e =
      let same =
        sym ((call-bind a l h).1 t)
        ∙ equal-eq (bind load place a) (bind load place b) e
        ∙ (call-bind b l' k).1 t' in
      cc
