-- ===== src/Callable/Function/Bind.antt =====
-- `Function` bound to free functions and to member functions, in callable/function.hpp on POSIX: the
-- constructors that keep an object's address and no closure. Code is described as for delegates.
mod Calls
mod Tests
use v1util.Common.{ℕ}
use v1util.Base.VTable.{Method, resolve_itanium, dispatch, itanium}
use v1util.Callable.Delegate.{Placement, Invoked, calls_function, calls_member}
use v1util.Callable.Function.World.{Call, construct_static}

module _ (load : ℕ → ℕ) (place : Placement) where
  unfoldable from_free : ℕ → Call
  from_free function = construct_static place.constructed_free function

  unfoldable bind_mem_fn_fast : Method → ℕ → ℕ → Call
  bind_mem_fn_fast m adjustment class =
      let mem_fn_call = resolve_itanium load class (itanium m adjustment) in
      construct_static mem_fn_call.mem_fn mem_fn_call.object

  unfoldable bind_mem_fn_safe : Method → ℕ → ℕ → Call
  bind_mem_fn_safe m adjustment class = construct_static (place.bound_member m adjustment) class

-- The ways to bind a function; `bind` is the fast one.
pub data Binding : Type 0 where
  constructs_free : ℕ → Binding
  binds_fast binds_safe : Method → ℕ → ℕ → Binding

module _ (load : ℕ → ℕ) (place : Placement) where
  unfoldable bind : Binding → Call
  bind (constructs_free f) = from_free load place f
  bind (binds_fast m adjustment class) = bind_mem_fn_fast load place m adjustment class
  bind (binds_safe m adjustment class) = bind_mem_fn_safe load place m adjustment class

-- What a function is bound to.
unfoldable meaning : (ℕ → ℕ) → Binding → Invoked
meaning load (constructs_free f) = calls_function f
meaning load (binds_fast m adjustment class) = calls_member (dispatch load m adjustment class)
meaning load (binds_safe m adjustment class) = calls_member (dispatch load m adjustment class)
