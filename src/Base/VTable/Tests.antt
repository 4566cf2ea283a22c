-- ===== src/Base/VTable/Tests.antt =====
-- An object at 1000 with two tables, and a function of each kind.
use v1util.Common.{ℕ, ◌==◌, ◌≡◌, ◌↔◌, refl, arith, if◌then◌else◌}
use v1util.Common.Word.{add64}
use v1util.Base.VTable.{virtual, target, resolve_itanium, resolve_arm, dispatch, itanium, arm}
use v1util.Base.VTable.Dispatch.{resolve_itanium-dispatch, resolve_arm-dispatch}

-- The tables at 2000 and 3000 have the functions 64 and 128 in their second places.
abbrev memory : ℕ → ℕ
memory a =
    if a == 1000
    then 2000
    else (if a == 1016 then 3000 else (if a == 2008 then 64 else (if a == 3008 then 128 else 0)))

-- The function is taken from the table of the object, not from that of its second base.
second_base_run :
    (resolve_itanium memory 1000 (itanium (virtual 1) 16) ≡ record { object = 1016; mem_fn = 64 })
    × (dispatch memory (virtual 1) 16 1000 ≡ record { object = 1016; mem_fn = 128 })
unfolding resolve_itanium dispatch add64
second_base_run = (refl, refl)

resolve_itanium-dispatch_example :
    (resolve_itanium memory 1000 (itanium (virtual 1) 16) ≡ dispatch memory (virtual 1) 16 1000)
    ↔ (target memory (virtual 1) 1000 ≡ target memory (virtual 1) (add64 1000 16))
resolve_itanium-dispatch_example = resolve_itanium-dispatch memory (virtual 1) 16 1000 tt

resolve_arm-dispatch_example :
    (resolve_arm memory 1000 (arm (virtual 1) 0) ≡ dispatch memory (virtual 1) 0 1000)
    ↔ (◌≡◌ {A = ℕ} 0 0)
resolve_arm-dispatch_example =
    resolve_arm-dispatch memory (virtual 1) 0 1000 (omega arith) (omega arith)
