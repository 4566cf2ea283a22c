-- ===== src/Callable/Function/Handles.antt =====
-- How many functions of a program refer to an object.
use v1util.Common.{
  ℕ, zero, suc, ◌+◌, ◌≤◌, ◌≡◌, refl, ap, Bool, true, false, Option, none, some, List, [], ◌∷◌, ◌++◌,
  map, length, get_elem?, set, arith,
}
use v1util.Callable.Function.{FunctionBase}
use v1util.Callable.Function.Counts.{refers}
use v1util.Callable.Function.World.{lives}

abbrev pub owns : ℕ → Option FunctionBase → ℕ
owns i none = 0
owns i (some f) = refers i f

abbrev pub handles : ℕ → List (Option FunctionBase) → ℕ
handles i [] = 0
handles i (x ∷ xs) = owns i x + handles i xs

abbrev pub is_alive : Option FunctionBase → Bool
is_alive none = false
is_alive (some f) = true

abbrev pub slots_of : List (Option FunctionBase) → List Bool
slots_of fs = map is_alive fs

pub handles-append :
    (i : ℕ) (fs gs : List (Option FunctionBase))
    → handles i (fs ++ gs) ≡ handles i fs + handles i gs
handles-append i [] gs = omega arith
handles-append i (x ∷ fs) gs = omega (arith, handles-append i fs gs)

pub handles-set :
    (i : ℕ) (fs : List (Option FunctionBase)) (k : ℕ) (old new : Option FunctionBase)
    → get_elem? fs k ≡ some old
    → handles i (set fs k new) + owns i old ≡ handles i fs + owns i new
handles-set i [] k old new h = cc
handles-set i (x ∷ fs) zero old new h =
    let e : owns i x ≡ owns i old = ap (owns i) cc in omega arith
handles-set i (x ∷ fs) (suc k) old new h = omega (arith, handles-set i fs k old new h)

pub refers-le : (i : ℕ) (f : FunctionBase) → refers i f ≤ 1
refers-le i f = ground arith

pub handles-le : (i : ℕ) (fs : List (Option FunctionBase)) → handles i fs ≤ length fs
handles-le i [] = omega arith
handles-le i (none ∷ fs) = omega (arith, handles-le i fs)
handles-le i (some f ∷ fs) = omega (arith, handles-le i fs, refers-le i f)

-- A slot that lives has a function.
pub lives-lookup :
    (fs : List (Option FunctionBase)) (k : ℕ)
    → lives (slots_of fs) k ≡ true
    → (f : FunctionBase) × (get_elem? fs k ≡ some (some f))
lives-lookup [] k h = cc
lives-lookup (none ∷ fs) zero h = cc
lives-lookup (some f ∷ fs) zero h = (f, refl)
lives-lookup (x ∷ fs) (suc k) h = lives-lookup fs k h

pub slots_of-append :
    (fs : List (Option FunctionBase)) (f : FunctionBase)
    → slots_of (fs ++ some f ∷ []) ≡ slots_of fs ++ true ∷ []
slots_of-append [] f = refl
slots_of-append (x ∷ fs) f = ap (◌∷◌ (is_alive x)) (slots_of-append fs f)

pub slots_of-set :
    (fs : List (Option FunctionBase)) (k : ℕ) (x : Option FunctionBase)
    → slots_of (set fs k x) ≡ set (slots_of fs) k (is_alive x)
slots_of-set [] k x = refl
slots_of-set (y ∷ fs) zero x = refl
slots_of-set (y ∷ fs) (suc k) x = ap (◌∷◌ (is_alive y)) (slots_of-set fs k x)

pub slots_of-replace :
    (fs : List (Option FunctionBase)) (k : ℕ) (f g : FunctionBase)
    → get_elem? fs k ≡ some (some f)
    → slots_of (set fs k (some g)) ≡ slots_of fs
slots_of-replace [] k f g h = refl
slots_of-replace (none ∷ fs) zero f g h = cc
slots_of-replace (some y ∷ fs) zero f g h = refl
slots_of-replace (x ∷ fs) (suc k) f g h = ap (◌∷◌ (is_alive x)) (slots_of-replace fs k f g h)
