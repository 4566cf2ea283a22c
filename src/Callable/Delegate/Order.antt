-- ===== src/Callable/Delegate/Order.antt =====
-- The comparisons of delegates.
use v1util.Common.{ℕ, ◌≡◌, ◌↔◌, refl, ◌==◌, not, ◌&&◌, true, false, arith}
use v1util.Callable.Delegate.{
  Placement, Delegate, equal, not_equal, less, from_free, bind_free, constructs_free, binds_free,
  bind,
}

-- `<` and `==` order all delegates: of any two exactly one is less, or they are equal, `!=` is the
-- negation of `==`, which holds only for a delegate itself, and `<` is transitive.
pub less-order :
    (a b c : Delegate)
    → (less b a ≡ (not (less a b) && not (equal a b)))
      × ((less a b && equal a b) ≡ false)
      × (not_equal a b ≡ not (equal a b))
      × ((equal a b ≡ true) ↔ (a ≡ b))
      × ((less a b && less b c && not (less a c)) ≡ false)
unfolding less equal not_equal
less-order a b c = (
  ground arith,
  ground arith,
  ground arith,
  ((λ h. ground arith), (λ h. ground arith)),
  ground arith,
)

-- Delegates that are constructed from functions are equal exactly if the functions are, as are those that
-- are bound to them; one of each is equal to the other exactly if the compiler has put the two lambdas
-- at one address, too.
pub equal-free :
    (load : ℕ → ℕ) (place : Placement) (f g : ℕ)
    → (equal (bind load place (constructs_free f)) (bind load place (constructs_free g)) ≡ (f == g))
      × (equal (bind load place (binds_free f)) (bind load place (binds_free g)) ≡ (f == g))
      × (equal (bind load place (constructs_free f)) (bind load place (binds_free g))
          ≡ (place.constructed_free == place.bound_free && f == g))
unfolding equal bind from_free bind_free
equal-free load place f g = (ground arith, ground arith, refl)
