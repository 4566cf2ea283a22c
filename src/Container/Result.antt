-- ===== src/Container/Result.antt =====
-- `Result` of container/result.hpp. Its storage holds a value, an error or an object that was destroyed;
-- `live` counts the objects of the value type that are constructed and not destroyed. A copy of a value
-- is a new object; a moved value leaves an object behind.
pub mod Balance
pub mod Tests
use v1util.Common.{
  ℕ, ◌+◌, ◌-◌, if◌then◌else◌, Bool, true, false, not, Option, none, some, List, [], ◌∷◌, get_elem?,
  set, ◌>>=◌, ◌>>◌, v1_assert,
}

pub data Stored (T E : Type 0) : Type 0 where
  value_object : T → Stored T E
  error_object : E → Stored T E
  destroyed : Stored T E

-- `mStorage` and `mHasValue`
pub record Result (T E : Type 0) : Type 0 where
  pub storage : Stored T E
  pub has_value : Bool

module _ {T E : Type 0} where
  -- `value()` and `error()`, with their assertions.
  unfoldable pub value : Result T E → Option T
  value r = do
    v1_assert r.has_value
    elim r.storage [ value_object t ↦ some t | error_object e ↦ none | destroyed ↦ none ]

  unfoldable pub error : Result T E → Option E
  error r = do
    v1_assert (not r.has_value)
    elim r.storage [ value_object t ↦ none | error_object e ↦ some e | destroyed ↦ none ]

  -- `new(&mStorage) T(...)` and `new(&mStorage) error_type(...)`; the flag is set apart from them.
  abbrev pub new_value : T → ℕ × Result T E → ℕ × Result T E
  new_value t (live, r) = (live + 1, record r { storage = value_object t })

  abbrev pub new_error : E → ℕ × Result T E → ℕ × Result T E
  new_error e (live, r) = (live, record r { storage = error_object e })

  abbrev pub set_flag : Bool → ℕ × Result T E → ℕ × Result T E
  set_flag b (live, r) = (live, record r { has_value = b })

  abbrev pub fresh : Result T E
  fresh = record { storage = destroyed; has_value = false }

  -- The destructor of the value or of the error runs, by the flag.
  unfoldable pub destroy : ℕ × Result T E → ℕ × Result T E
  destroy (live, r) =
      if r.has_value
      then (live - 1, record r { storage = destroyed })
      else (live, record r { storage = destroyed })

  unfoldable pub from_value : T → ℕ → ℕ × Result T E
  from_value t live = set_flag true (new_value t (live, fresh))

  unfoldable pub from_error : E → ℕ → ℕ × Result T E
  from_error e live = new_error e (live, fresh)

  -- The copying part of the constructor and the assignment from another result.
  unfoldable pub copy_into : Result T E → ℕ × Result T E → Option (ℕ × Result T E)
  copy_into other this =
      if other.has_value
      then (do t ← value other; some (set_flag other.has_value (new_value t this)))
      else (do e ← error other; some (set_flag other.has_value (new_error e this)))

  unfoldable pub from_copy : Result T E → ℕ → Option (ℕ × Result T E)
  from_copy other live = copy_into other (live, fresh)

  -- The assignment of a result to another one or to itself, behind the destruction of this one. Both are
  -- results of the program, and the other is read as it is now.
  unfoldable pub copy_over :
      ℕ → ℕ → List (Result T E) → ℕ × Result T E → Option (ℕ × List (Result T E))
  copy_over this other results (live, r) = do
    let results₁ = set results this r
    o ← get_elem? results₁ other
    (live₁, r₁) ← copy_into o (live, r)
    some (live₁, set results₁ this r₁)

  unfoldable pub assign_copy : ℕ → ℕ → ℕ × List (Result T E) → Option (ℕ × List (Result T E))
  assign_copy this other (live, results) = do
    r ← get_elem? results this
    copy_over this other results (set_flag false (destroy (live, r)))

  unfoldable pub assign_value : T → ℕ × Result T E → ℕ × Result T E
  assign_value t this = set_flag true (new_value t (destroy this))

  unfoldable pub assign_error : E → ℕ × Result T E → ℕ × Result T E
  assign_error e this = set_flag false (new_error e (destroy this))

  -- `apply`, for a functor that returns a result.
  unfoldable pub apply {ℓ} : {U : Type ℓ} → (T → U) → (E → U) → Result T E → Option U
  apply functor pass_on r =
      if r.has_value then (do t ← value r; some (functor t)) else (do e ← error r; some (pass_on e))

  module _ (empty_error : E) where
    -- `Result()` and `setEmptyError`
    unfoldable pub default_result : ℕ → ℕ × Result T E
    default_result live = new_error empty_error (live, fresh)

    -- The moving part of the constructor and the assignment: this result and the other.
    unfoldable pub move_into : Result T E → ℕ × Result T E → Option (ℕ × Result T E × Result T E)
    move_into other (live, r) =
        let (live₁, r₁) = set_flag other.has_value (live, r) in
        if other.has_value
        then (do
          t ← value other
          let (live₂, r₂) = new_value t (live₁, r₁)
          let (live₃, other₁) =
              new_error empty_error (destroy (live₂, record other { has_value = false }))
          some (live₃, r₂, other₁))
        else (do
          e ← error other
          let (live₂, r₂) = new_error e (live₁, r₁)
          some (live₂, r₂, other))

    unfoldable pub from_move : Result T E → ℕ → Option (ℕ × Result T E × Result T E)
    from_move other live = move_into other (live, fresh)

    unfoldable pub assign_move : Result T E → ℕ × Result T E → Option (ℕ × Result T E × Result T E)
    assign_move other this = move_into other (destroy this)
