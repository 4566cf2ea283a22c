-- ===== src/Base/VTable.antt =====
-- `resolveUntypedMemberFn` of base/cppvtable.hpp, on x86 and on ARM with a POSIX system: from an object and
-- a pointer to a member function to the addresses that a call takes. `load a` is the word of 8 bytes at
-- the address `a`; an object with virtual functions begins with the address of its table.
pub mod Dispatch
mod Tests
use v1util.Common.{ℕ, ◌+◌, ◌-◌, ◌*◌, ◌/◌, ◌%◌, ◌==◌, if◌then◌else◌, Bool, true, false, not}
use v1util.Common.Word.{add64}

-- `UntypedMemberFnCall`
pub record UntypedMemberFnCall : Type 0 where
  pub object : ℕ
  pub mem_fn : ℕ

-- `ItaniumMemFn`
pub record ItaniumMemFn : Type 0 where
  pub func_or_offset : ℕ
  pub this_offset : ℕ

-- `MemFnLayout`
pub record MemFnLayout : Type 0 where
  pub func_or_offset : ℕ
  pub is_virtual : ℕ

-- A member function: its address, or its place in the table of its class.
pub data Method : Type 0 where
  nonvirtual virtual : ℕ → Method

module _ (load : ℕ → ℕ) where
  -- `pVtbl[entry]`
  abbrev pub table_entry : ℕ → ℕ → ℕ
  table_entry vtbl entry = load (add64 vtbl (8 * entry))

  unfoldable pub resolve_itanium : ℕ → ItaniumMemFn → UntypedMemberFnCall
  resolve_itanium member_class m =
      if m.func_or_offset % 2 == 1
      then (let vtbl = load member_class in
          record {
            object = add64 member_class m.this_offset;
            mem_fn = table_entry vtbl ((m.func_or_offset - 1) / 8);
          })
      else record { object = add64 member_class m.this_offset; mem_fn = m.func_or_offset }

  unfoldable resolve_arm : ℕ → MemFnLayout → UntypedMemberFnCall
  resolve_arm member_class m =
      let function =
        if not (m.is_virtual == 0)
        then (let vtbl = load member_class in table_entry vtbl (m.func_or_offset / 8))
        else m.func_or_offset in
      record { object = member_class; mem_fn = function }

  -- What the language calls through a pointer to a member function: the object is adjusted first, and a
  -- virtual function is looked up in the table of the adjusted object.
  abbrev pub target : Method → ℕ → ℕ
  target (nonvirtual function) object = function
  target (virtual entry) object = table_entry (load object) entry

  unfoldable pub dispatch : Method → ℕ → ℕ → UntypedMemberFnCall
  dispatch m adjustment object =
      let adjusted = add64 object adjustment in
      record { object = adjusted; mem_fn = target m adjusted }

-- The two representations of a pointer to a member function, by the platforms' calling conventions.
abbrev pub itanium : Method → ℕ → ItaniumMemFn
itanium (nonvirtual function) adjustment = record {
  func_or_offset = function;
  this_offset = adjustment;
}
itanium (virtual entry) adjustment = record {
  func_or_offset = 8 * entry + 1;
  this_offset = adjustment;
}

abbrev pub arm : Method → ℕ → MemFnLayout
arm (nonvirtual function) adjustment = record {
  func_or_offset = function;
  is_virtual = 2 * adjustment;
}
arm (virtual entry) adjustment = record {
  func_or_offset = 8 * entry;
  is_virtual = 2 * adjustment + 1;
}
