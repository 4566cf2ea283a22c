-- ===== src/Callable/Function/Bind/Tests.antt =====
-- A function that is bound to a virtual member function of an object at 1000, with its table at 2000.
use v1util.Common.{ℕ, ◌==◌, refl, if◌then◌else◌, arith}
use v1util.Common.Word.{add64}
use v1util.Base.VTable.{virtual}
use v1util.Callable.Delegate.{Code, compiled, Placement}
use v1util.Callable.Function.World.{empty_world}
use v1util.Callable.Function.Bind.{binds_fast}
use v1util.Callable.Function.Bind.Calls.{Binds, call-bind_function}

abbrev memory : ℕ → ℕ
memory a = if a == 1000 then 2000 else (if a == 2008 then 128 else 0)

abbrev code : ℕ → Code
code a = compiled

abbrev placement : Placement
placement = record {
  constructed_free = 16;
  bound_free = 32;
  constructed_invocable = λ type. 80;
  bound_invocable = λ type. 96;
  bound_member = λ m adjustment. 48;
}

call-bind_function_example :
    Binds memory code placement (binds_fast (virtual 1) 0 1000) empty_world 5000
unfolding add64
call-bind_function_example =
    call-bind_function memory code placement (binds_fast (virtual 1) 0 1000) empty_world 5000
      ((refl, (omega arith), refl), tt)
