-- ===== src/Base/Ordering.antt =====
-- ORDER BY yields the rows in order, and loses none.
use Prim.Native.Nat.{ℕ, ◌≤◌}
use mathlib.Core.Path.{◌≡◌, refl}
use mathlib.Core.Logic.{inl, inr}
use mathlib.Core.Bool.{Bool, true, false, ◌&&◌, ◌||◌}
use mathlib.Core.Option.{some}
use mathlib.Core.List.{List, [], ◌∷◌}
use native.Mathlib.Omega.{arith}
use x_bray.Base.Tests.{leb, ltb, Bool-cases}
use x_bray.Base.Rows.{head_of, any_where, select_where, insert_by, order_by}

module _ {ℓ} {A : Type ℓ} (key : A → ℕ) where
  -- Each key is at least the bound, and the keys never go down.
  abbrev pub OrderedFrom : ℕ → List A → Type 0
  OrderedFrom low [] = Unit
  OrderedFrom low (x ∷ xs) = (low ≤ key x) × OrderedFrom (key x) xs

  OrderedFrom-mono :
      (low high : ℕ) (xs : List A) → low ≤ high → OrderedFrom high xs → OrderedFrom low xs
  OrderedFrom-mono low high [] h o = tt
  OrderedFrom-mono low high (x ∷ xs) h o = (omega (arith, o.0), o.1)

  insert_by-OrderedFrom :
      (low : ℕ) (x : A) (xs : List A)
      → low ≤ key x
      → OrderedFrom low xs
      → OrderedFrom low (insert_by key x xs)
  unfolding insert_by
  insert_by-OrderedFrom low x [] h o = (h, tt)
  insert_by-OrderedFrom low x (y ∷ ys) h o = elim (Bool-cases (leb (key x) (key y))) [
    | inl le ↦ rw le (h, (ground arith, o.1))
    | inr gt ↦ rw gt (o.0, insert_by-OrderedFrom (key y) x ys (ground arith) o.1)
  ]

  pub order_by-OrderedFrom : (xs : List A) → OrderedFrom 0 (order_by key xs)
  unfolding order_by
  order_by-OrderedFrom [] = tt
  order_by-OrderedFrom (x ∷ xs) =
      insert_by-OrderedFrom 0 x (order_by key xs) (omega arith) (order_by-OrderedFrom xs)

  any_where-insert_by :
      (p : A → Bool) (x : A) (xs : List A)
      → any_where p (insert_by key x xs) ≡ (p x || any_where p xs)
  unfolding any_where insert_by
  any_where-insert_by p x [] = refl
  any_where-insert_by p x (y ∷ ys) = ground (arith, any_where-insert_by p x ys)

  pub any_where-order_by :
      (p : A → Bool) (xs : List A) → any_where p (order_by key xs) ≡ any_where p xs
  unfolding any_where order_by
  any_where-order_by p [] = refl
  any_where-order_by p (x ∷ xs) =
      ground (arith, any_where-insert_by p x (order_by key xs), any_where-order_by p xs)

  -- Past a row of an ordered table no key is smaller.
  pub any_where-below :
      (p : A → Bool) (bound low : ℕ) (xs : List A)
      → bound ≤ low
      → OrderedFrom low xs
      → any_where (λ x. ltb (key x) bound && p x) xs ≡ false
  unfolding any_where
  any_where-below p bound low [] h o = refl
  any_where-below p bound low (x ∷ xs) h o =
      ground (arith, o.0, any_where-below p bound (key x) xs (omega (arith, o.0)) o.1)

module _ {ℓ} {A : Type ℓ} where
  pub any_where-select :
      (p q : A → Bool) (xs : List A)
      → any_where p (select_where q xs) ≡ any_where (λ x. q x && p x) xs
  unfolding any_where select_where
  any_where-select p q [] = refl
  any_where-select p q (x ∷ xs) = ground (arith, any_where-select p q xs)

  pub any_where-head :
      (p : A → Bool) (xs : List A) (x : A)
      → head_of xs ≡ some x
      → p x ≡ true
      → any_where p xs ≡ true
  unfolding any_where
  any_where-head p [] x h k = ground arith
  any_where-head p (y ∷ ys) x h k = ground arith
