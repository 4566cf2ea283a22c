-- ===== src/Callable/Delegate/Tests.antt =====
-- A function at 64, a lambda for functions at 16, another at 32, and an object at 1000.
use v1util.Common.{ℕ, ◌≡◌, ◌↔◌, refl, ◌==◌, ◌&&◌, not, true, false, some, if◌then◌else◌, arith}
use v1util.Common.Word.{add64}
use v1util.Base.VTable.{virtual, nonvirtual, resolve_itanium}
use v1util.Callable.Delegate.{
  Code, compiled, free_trampoline, member_trampoline, calls_member, Placement, Delegate, equal,
  not_equal, less, run_code, call, bind_mem_fn_fast, constructs_free, binds_free, binds_fast, bind,
  meaning, destroyed, swap, is_bound, from_free,
}
use v1util.Callable.Delegate.Calls.{HasOneTarget, call-bind, equal-meaning}
use v1util.Callable.Delegate.Order.{less-order, equal-free}

-- The object's table at 2000 has the function 128 in its second placement.
abbrev memory : ℕ → ℕ
memory a = if a == 1000 then 2000 else (if a == 2008 then 128 else 0)

abbrev code : ℕ → Code
code a =
    if a == 16
    then free_trampoline
    else (if a == 32
        then free_trampoline
        else (if a == 48 then member_trampoline (virtual 1) 0 else compiled))

abbrev placement : Placement
placement = record {
  constructed_free = 16;
  bound_free = 32;
  constructed_invocable = λ type. 80;
  bound_invocable = λ type. 96;
  bound_member = λ m adjustment. 48;
}

member_run :
    call memory code (bind memory placement (binds_fast (virtual 1) 0 1000))
    ≡ some (calls_member (record { object = 1000; mem_fn = 128 }))
unfolding call bind bind_mem_fn_fast resolve_itanium run_code add64
member_run = refl

swap_run :
    swap (from_free memory placement 64) (record { object = 0; trampoline = 0 })
    ≡ (record { object = 0; trampoline = 0 }, record { object = 64; trampoline = 16 })
unfolding swap from_free
swap_run = refl

-- A destroyed delegate looks bound.
destroyed_run : is_bound (destroyed (from_free memory placement 64)) ≡ true
unfolding is_bound destroyed
destroyed_run = refl

call-bind_example :
    (call memory code (bind memory placement (binds_fast (virtual 1) 0 1000))
      ≡ some (meaning memory (binds_fast (virtual 1) 0 1000)))
    ↔ HasOneTarget memory code placement (binds_fast (virtual 1) 0 1000)
unfolding add64
call-bind_example =
    call-bind memory code placement (binds_fast (virtual 1) 0 1000) ((omega arith), refl)
      ((omega arith), tt)

-- The function 128 once out of the table and once by its address.
equal-meaning_example :
    meaning memory (binds_fast (virtual 1) 0 1000)
    ≡ meaning memory (binds_fast (nonvirtual 128) 0 1000)
unfolding equal bind bind_mem_fn_fast resolve_itanium add64
equal-meaning_example =
    equal-meaning memory code placement (binds_fast (virtual 1) 0 1000)
      (binds_fast (nonvirtual 128) 0 1000) ((omega arith), refl) ((omega arith), tt) refl
      ((omega arith), refl) ((omega arith), refl) refl refl

abbrev low : Delegate
low = record { object = 64; trampoline = 16 }

abbrev middle : Delegate
middle = record { object = 80; trampoline = 16 }

abbrev high : Delegate
high = record { object = 64; trampoline = 32 }

less-order_example :
    (less middle low ≡ (not (less low middle) && not (equal low middle)))
    × ((less low middle && equal low middle) ≡ false)
    × (not_equal low middle ≡ not (equal low middle))
    × ((equal low middle ≡ true) ↔ (low ≡ middle))
    × ((less low middle && less middle high && not (less low high)) ≡ false)
less-order_example = less-order low middle high

free_comparison_run :
    (equal (bind memory placement (constructs_free 64)) (bind memory placement (constructs_free 80))
      ≡ (64 == 80))
    × (equal (bind memory placement (binds_free 64)) (bind memory placement (binds_free 80))
        ≡ (64 == 80))
    × (equal (bind memory placement (constructs_free 64)) (bind memory placement (binds_free 80))
        ≡ (placement.constructed_free == placement.bound_free && 64 == 80))
free_comparison_run = equal-free memory placement 64 80
