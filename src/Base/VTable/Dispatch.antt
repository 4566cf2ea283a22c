-- ===== src/Base/VTable/Dispatch.antt =====
-- Pointers to member functions resolve to the calls that the language makes.
use v1util.Common.{
  ℕ, ◌+◌, ◌-◌, ◌*◌, ◌/◌, ◌%◌, ◌<◌, ◌≡◌, refl, ap, sym, subst, ◌∙◌, ◌==◌, ◌↔◌, true, false, arith,
}
use v1util.Common.Word.{word, add64}
use v1util.Base.VTable.{
  UntypedMemberFnCall, Method, nonvirtual, virtual, target, resolve_itanium, resolve_arm, dispatch,
  itanium, arm,
}

-- An address of code, which is even.
abbrev pub IsAligned : Method → Type 0
IsAligned (nonvirtual function) = function % 2 ≡ 0
IsAligned (virtual entry) = Unit

add64_zero : (a : ℕ) → a < word → add64 a 0 ≡ a
unfolding add64
add64_zero a h = omega arith

module _ (load : ℕ → ℕ) where
  -- The x86 resolve adjusts the object, but looks a virtual function up in the table of the object that it
  -- is given.
  pub resolve_itanium-target :
      (m : Method) (adjustment object : ℕ)
      → IsAligned m
      → resolve_itanium load object (itanium m adjustment)
        ≡ record { object = add64 object adjustment; mem_fn = target load m object }
  unfolding resolve_itanium
  resolve_itanium-target (nonvirtual function) adjustment object h =
      let even : (function % 2 == 1) ≡ false = ground arith in rw even
  resolve_itanium-target (virtual entry) adjustment object h =
      let odd : ((8 * entry + 1) % 2 == 1) ≡ true = ground arith in
      let place : (8 * entry + 1 - 1) / 8 ≡ entry = omega arith in rw (odd, place)

  -- On x86, a pointer to a member function at an even address resolves to the language's call exactly if
  -- the function is the same for the object and for the adjusted one; so it does for every function that
  -- is not virtual and, without an adjustment, for every one.
  pub resolve_itanium-dispatch :
      (m : Method) (adjustment object : ℕ)
      → IsAligned m
      → (resolve_itanium load object (itanium m adjustment) ≡ dispatch load m adjustment object)
        ↔ (target load m object ≡ target load m (add64 object adjustment))
  unfolding resolve_itanium dispatch
  resolve_itanium-dispatch (nonvirtual function) adjustment object h =
      let even : (function % 2 == 1) ≡ false = ground arith in rw even ((λ _. refl), (λ _. refl))
  resolve_itanium-dispatch (virtual entry) adjustment object h =
      let odd : ((8 * entry + 1) % 2 == 1) ≡ true = ground arith in
      let place : (8 * entry + 1 - 1) / 8 ≡ entry = omega arith in
      rw (odd, place) ((λ e. ap UntypedMemberFnCall.mem_fn e), (λ e. cc))

  resolve_arm-plain :
      (m : Method) (object : ℕ)
      → object < word
      → resolve_arm load object (arm m 0) ≡ dispatch load m 0 object
  unfolding resolve_arm dispatch
  resolve_arm-plain (nonvirtual function) object h = rw (add64_zero object h)
  resolve_arm-plain (virtual entry) object h =
      let place : 8 * entry / 8 ≡ entry = omega arith in rw (add64_zero object h, place)

  unmoved :
      (object adjustment : ℕ)
      → object < word
      → adjustment < word
      → object ≡ add64 object adjustment
      → adjustment ≡ 0
  unfolding add64
  unmoved object adjustment h k e = omega arith

  resolve_arm-object :
      (m : Method) (adjustment object : ℕ)
      → (resolve_arm load object (arm m adjustment)).object ≡ object
  unfolding resolve_arm
  resolve_arm-object m adjustment object = refl

  -- On ARM, a pointer to a member function of an object below 2 ^ 64 resolves to the language's call exactly
  -- if it makes no adjustment.
  pub resolve_arm-dispatch :
      (m : Method) (adjustment object : ℕ)
      → object < word
      → adjustment < word
      → (resolve_arm load object (arm m adjustment) ≡ dispatch load m adjustment object)
        ↔ (adjustment ≡ 0)
  unfolding dispatch
  resolve_arm-dispatch m adjustment object h k = (
    (λ e.
        unmoved object adjustment h k
          (sym (resolve_arm-object m adjustment object) ∙ ap UntypedMemberFnCall.object e)),
    (λ e.
        subst (λ a. resolve_arm load object (arm m a) ≡ dispatch load m a object) (sym e)
          (resolve_arm-plain m object h)),
  )
