-- ===== src/Base/Absence.antt =====
-- Tables in which no row meets a condition, and what each kind of statement does to that.
use mathlib.Core.Path.{◌≡◌, refl}
use mathlib.Core.Bool.{Bool, false, ◌||◌}
use mathlib.Core.Option.{none}
use mathlib.Core.List.{List, [], ◌∷◌, ◌++◌}
use native.Mathlib.Omega.{arith}
use x_bray.Base.Tests.{if◌then◌else◌}
unfoldable use x_bray.Base.Rows.{update_where, find_where, any_where}

module _ {ℓ} {A : Type ℓ} where
  pub any_where-append :
      (p : A → Bool) (xs ys : List A) → any_where p (xs ++ ys) ≡ (any_where p xs || any_where p ys)
  unfolding any_where
  any_where-append p [] ys = refl
  any_where-append p (x ∷ xs) ys = ground (arith, any_where-append p xs ys)

  pub any_where-update :
      (p r c : A → Bool) (f : A → A) (xs : List A)
      → ((x : A) → p x ≡ false → r (if c x then f x else x) ≡ false)
      → any_where p xs ≡ false
      → any_where r (update_where c f xs) ≡ false
  unfolding any_where update_where
  any_where-update p r c f [] h none_left = refl
  any_where-update p r c f (x ∷ xs) h none_left = ground (arith, h x, any_where-update p r c f xs h)

  pub find_where-none :
      (p : A → Bool) (xs : List A) → any_where p xs ≡ false → find_where p xs ≡ none
  unfolding any_where find_where
  find_where-none p [] h = refl
  find_where-none p (x ∷ xs) h = ground (arith, find_where-none p xs)

  pub any_where-none :
      (p : A → Bool) (xs : List A) → find_where p xs ≡ none → any_where p xs ≡ false
  unfolding any_where find_where
  any_where-none p [] h = refl
  any_where-none p (x ∷ xs) h = ground (arith, any_where-none p xs)

  -- An update that makes its own condition fail leaves no row that meets it.
  pub any_where-cleared :
      (p : A → Bool) (f : A → A) (xs : List A)
      → ((x : A) → p (f x) ≡ false)
      → any_where p (update_where p f xs) ≡ false
  unfolding any_where update_where
  any_where-cleared p f [] h = refl
  any_where-cleared p f (x ∷ xs) h = ground (arith, h x, any_where-cleared p f xs h)
