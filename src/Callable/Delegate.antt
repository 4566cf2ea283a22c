-- ===== src/Callable/Delegate.antt =====
-- `Delegate` of callable/delegate.hpp on POSIX: an object's address beside that of the function that is
-- called with it. What stands at an address of code, and where the compiler has put the lambdas of this
-- header, are parameters; the arguments of a call are passed through and have no model.
pub mod Calls
mod Order
mod Tests
use v1util.Common.{
  ℕ, ◌-◌, ◌^◌, ◌==◌, ltb, Bool, not, ◌&&◌, ◌||◌, Option, some, ◌>>=◌, ◌>>◌, v1_assert,
}
use v1util.Base.VTable.{UntypedMemberFnCall, Method, resolve_itanium, dispatch, itanium}

-- A compiled function or one of the lambdas: for functions, for a type of callable objects, and for a
-- member function with the adjustment of its pointer.
pub data Code : Type 0 where
  compiled free_trampoline : Code
  invocable_trampoline : ℕ → Code
  member_trampoline : Method → ℕ → Code

-- What a call reaches: a function, a callable object of a type, or a member function on an object.
pub data Invoked : Type 0 where
  calls_function : ℕ → Invoked
  calls_invocable : ℕ → ℕ → Invoked
  calls_member : UntypedMemberFnCall → Invoked

-- Where the lambdas are.
pub record Placement : Type 0 where
  pub constructed_free : ℕ
  pub bound_free : ℕ
  pub constructed_invocable : ℕ → ℕ
  pub bound_invocable : ℕ → ℕ
  pub bound_member : Method → ℕ → ℕ

-- `mpObject` and `mpTrampoline`
pub record Delegate : Type 0 where
  pub object : ℕ
  pub trampoline : ℕ

abbrev pub default_delegate : Delegate
default_delegate = record { object = 0; trampoline = 0 }

unfoldable destroyed : Delegate → Delegate
destroyed d = record { object = 2 ^ 64 - 1; trampoline = 2 ^ 64 - 1 }

-- `a.swap(b)`: `a` and `b` afterwards.
unfoldable swap : Delegate → Delegate → Delegate × Delegate
swap this other = let tmp = other in let other' = this in let this' = tmp in (this', other')

unfoldable equal : Delegate → Delegate → Bool
equal a b = a.trampoline == b.trampoline && a.object == b.object

unfoldable not_equal : Delegate → Delegate → Bool
not_equal a b = not (a.trampoline == b.trampoline) || not (a.object == b.object)

unfoldable less : Delegate → Delegate → Bool
less a b = ltb a.trampoline b.trampoline || (a.trampoline == b.trampoline && ltb a.object b.object)

unfoldable is_bound : Delegate → Bool
is_bound d = not (d.trampoline == 0)

-- The ways to make a delegate; `bind` of a member function is the fast one.
pub data Binding : Type 0 where
  constructs_free binds_free : ℕ → Binding
  constructs_invocable binds_invocable : ℕ → ℕ → Binding
  binds_fast binds_safe : Method → ℕ → ℕ → Binding

module _ (load : ℕ → ℕ) (code : ℕ → Code) where
  -- The bodies of the lambdas.
  unfoldable pub run_code : Code → ℕ → ℕ → Invoked
  run_code compiled function object = calls_member (record { object = object; mem_fn = function })
  run_code free_trampoline function object = calls_function object
  run_code (invocable_trampoline type) function object = calls_invocable type object
  run_code (member_trampoline m adjustment) function object =
      calls_member (dispatch load m adjustment object)

  -- `operator()`, whose assumptions fail as assertions do.
  unfoldable pub call : Delegate → Option Invoked
  call d = do
    v1_assert (not (d.object == 0))
    v1_assert (not (d.trampoline == 0))
    some (run_code (code d.trampoline) d.trampoline d.object)

module _ (load : ℕ → ℕ) (place : Placement) where
  unfoldable from_free : ℕ → Delegate
  from_free function = record { object = function; trampoline = place.constructed_free }

  unfoldable from_invocable : ℕ → ℕ → Delegate
  from_invocable type invocable = record {
    object = invocable;
    trampoline = place.constructed_invocable type;
  }

  unfoldable bind_free : ℕ → Delegate
  bind_free function = record { object = function; trampoline = place.bound_free }

  unfoldable bind_invocable : ℕ → ℕ → Delegate
  bind_invocable type invocable = record {
    object = invocable;
    trampoline = place.bound_invocable type;
  }

  unfoldable bind_mem_fn_fast : Method → ℕ → ℕ → Delegate
  bind_mem_fn_fast m adjustment class =
      let mem_fn_call = resolve_itanium load class (itanium m adjustment) in
      record { object = mem_fn_call.object; trampoline = mem_fn_call.mem_fn }

  unfoldable bind_mem_fn_safe : Method → ℕ → ℕ → Delegate
  bind_mem_fn_safe m adjustment class = record {
    object = class;
    trampoline = place.bound_member m adjustment;
  }

  unfoldable bind : Binding → Delegate
  bind (constructs_free f) = from_free f
  bind (binds_free f) = bind_free f
  bind (constructs_invocable type a) = from_invocable type a
  bind (binds_invocable type a) = bind_invocable type a
  bind (binds_fast m adjustment class) = bind_mem_fn_fast m adjustment class
  bind (binds_safe m adjustment class) = bind_mem_fn_safe m adjustment class

module _ (load : ℕ → ℕ) where
  -- What a delegate is bound to.
  unfoldable pub meaning : Binding → Invoked
  meaning (constructs_free f) = calls_function f
  meaning (binds_free f) = calls_function f
  meaning (constructs_invocable type a) = calls_invocable type a
  meaning (binds_invocable type a) = calls_invocable type a
  meaning (binds_fast m adjustment class) = calls_member (dispatch load m adjustment class)
  meaning (binds_safe m adjustment class) = calls_member (dispatch load m adjustment class)
