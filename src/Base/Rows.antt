-- ===== src/Base/Rows.antt =====
-- Tables as lists of rows, and the statements that the repository runs on them:
-- SELECT … WHERE, UPDATE … WHERE with its row count, EXISTS, LIMIT 1.
use Prim.Native.Nat.{ℕ, suc, ◌+◌, ◌≤◌}
use mathlib.Core.Path.{◌≡◌, refl}
use mathlib.Core.Bool.{Bool, true, false, ◌||◌, not}
use mathlib.Core.Option
use mathlib.Core.Option.{Option, none, some}
use mathlib.Core.List.{List, [], ◌∷◌, ◌++◌}
use native.Mathlib.Omega.{arith}
use x_bray.Base.Tests.{if◌then◌else◌, leb}

module _ {ℓ} {A : Type ℓ} where
  abbrev pub length : List A → ℕ
  length [] = 0
  length (x ∷ xs) = suc (length xs)

  abbrev pub head_of : List A → Option A
  head_of [] = none
  head_of (x ∷ xs) = some x

  unfoldable pub select_where : (A → Bool) → List A → List A
  select_where p [] = []
  select_where p (x ∷ xs) = let rest = select_where p xs in if p x then x ∷ rest else rest

  unfoldable pub update_where : (A → Bool) → (A → A) → List A → List A
  update_where p f [] = []
  update_where p f (x ∷ xs) = (if p x then f x else x) ∷ update_where p f xs

  unfoldable pub count_where : (A → Bool) → List A → ℕ
  count_where p [] = 0
  count_where p (x ∷ xs) = let rest = count_where p xs in if p x then suc rest else rest

  -- SELECT … LIMIT 1: the first row that fits.
  unfoldable pub find_where : (A → Bool) → List A → Option A
  find_where p [] = none
  find_where p (x ∷ xs) = if p x then some x else find_where p xs

  unfoldable pub any_where : (A → Bool) → List A → Bool
  any_where p [] = false
  any_where p (x ∷ xs) = p x || any_where p xs

  -- ORDER BY a column: a stable insertion sort.
  unfoldable pub insert_by : (A → ℕ) → A → List A → List A
  insert_by key x [] = x ∷ []
  insert_by key x (y ∷ ys) =
      let rest = insert_by key x ys in if leb (key x) (key y) then x ∷ y ∷ ys else y ∷ rest

  unfoldable pub order_by : (A → ℕ) → List A → List A
  unfolding insert_by
  order_by key [] = []
  order_by key (x ∷ xs) = insert_by key x (order_by key xs)

module _ {ℓ} {A : Type ℓ} where
  -- Counts follow an implication between the conditions, also across an update.
  pub count_where-update_le :
      (r p q : A → Bool) (f : A → A) (xs : List A)
      → ((x : A) → r (if p x then f x else x) ≡ true → q x ≡ true)
      → count_where r (update_where p f xs) ≤ count_where q xs
  unfolding count_where update_where
  count_where-update_le r p q f [] h = omega arith
  count_where-update_le r p q f (x ∷ xs) h = ground (arith, h x, count_where-update_le r p q f xs h)

  pub count_where_mono :
      (p q : A → Bool) (xs : List A)
      → ((x : A) → p x ≡ true → q x ≡ true)
      → count_where p xs ≤ count_where q xs
  unfolding count_where
  count_where_mono p q [] h = omega arith
  count_where_mono p q (x ∷ xs) h = ground (arith, h x, count_where_mono p q xs h)

  pub count_where-or :
      (p q : A → Bool) (xs : List A)
      → count_where (λ x. p x || q x) xs ≤ count_where p xs + count_where q xs
  unfolding count_where
  count_where-or p q [] = omega arith
  count_where-or p q (x ∷ xs) = ground (arith, count_where-or p q xs)

  pub count_where-append :
      (p : A → Bool) (xs ys : List A)
      → count_where p (xs ++ ys) ≡ count_where p xs + count_where p ys
  unfolding count_where
  count_where-append p [] ys = omega arith
  count_where-append p (x ∷ xs) ys = ground (arith, count_where-append p xs ys)

  -- EXISTS and LIMIT 1 find nothing exactly when the count is 0.
  pub count_where-eq_zero_of_find :
      (p : A → Bool) (xs : List A) → find_where p xs ≡ none → count_where p xs ≡ 0
  unfolding count_where find_where
  count_where-eq_zero_of_find p [] h = refl
  count_where-eq_zero_of_find p (x ∷ xs) h = ground (arith, count_where-eq_zero_of_find p xs)

  pub count_where-eq_zero_of_any :
      (p : A → Bool) (xs : List A) → any_where p xs ≡ false → count_where p xs ≡ 0
  unfolding count_where any_where
  count_where-eq_zero_of_any p [] h = refl
  count_where-eq_zero_of_any p (x ∷ xs) h = ground (arith, count_where-eq_zero_of_any p xs)

  pub find_where-holds :
      (p : A → Bool) (xs : List A) (a : A) → find_where p xs ≡ some a → p a ≡ true
  unfolding find_where
  find_where-holds p [] a h = ground arith
  find_where-holds p (x ∷ xs) a h = ground (arith, find_where-holds p xs a)

  -- An update that keeps the tested columns changes the row found, and which row is found not.
  pub find_where-update :
      (p c : A → Bool) (f : A → A) (xs : List A)
      → ((x : A) → p (f x) ≡ p x)
      → find_where p (update_where c f xs)
        ≡ Option.map (λ x. if c x then f x else x) (find_where p xs)
  unfolding find_where update_where
  find_where-update p c f [] h = refl
  find_where-update p c f (x ∷ xs) h = ground (arith, h x, find_where-update p c f xs h)

  pub find_where-append :
      (p : A → Bool) (xs ys : List A) (a : A)
      → find_where p xs ≡ some a
      → find_where p (xs ++ ys) ≡ some a
  unfolding find_where
  find_where-append p [] ys a h = ground arith
  find_where-append p (x ∷ xs) ys a h = ground (arith, find_where-append p xs ys a)

  -- A statement whose condition no row meets changes nothing.
  pub count_where-eq_zero :
      (p : A → Bool) (xs : List A) → ((x : A) → p x ≡ false) → count_where p xs ≡ 0
  unfolding count_where
  count_where-eq_zero p [] h = refl
  count_where-eq_zero p (x ∷ xs) h = ground (arith, h x, count_where-eq_zero p xs h)

  pub update_where-none :
      (p : A → Bool) (f : A → A) (xs : List A) → count_where p xs ≡ 0 → update_where p f xs ≡ xs
  unfolding count_where update_where
  update_where-none p f [] h = refl
  update_where-none p f (x ∷ xs) h = ground (arith, update_where-none p f xs)

  pub any_where_mono :
      (p q : A → Bool) (xs : List A)
      → ((x : A) → p x ≡ true → q x ≡ true)
      → any_where q xs ≡ false
      → any_where p xs ≡ false
  unfolding any_where
  any_where_mono p q [] h none_left = refl
  any_where_mono p q (x ∷ xs) h none_left = ground (arith, h x, any_where_mono p q xs h)

  -- Where one row fits at most, a narrower condition that fails on it fits none.
  pub count_where-eq_zero_of_single :
      (p q : A → Bool) (xs : List A) (a : A)
      → find_where p xs ≡ some a
      → count_where p xs ≤ 1
      → ((x : A) → q x ≡ true → p x ≡ true)
      → q a ≡ false
      → count_where q xs ≡ 0
  unfolding find_where count_where
  count_where-eq_zero_of_single p q [] a f single h fails = refl
  count_where-eq_zero_of_single p q (x ∷ xs) a f single h fails =
      ground (arith, h x, count_where_mono q p xs h, count_where-eq_zero_of_single p q xs a)

  pub select_where-all :
      (p : A → Bool) (xs : List A) → count_where p xs ≡ 0 → select_where (λ x. not (p x)) xs ≡ xs
  unfolding count_where select_where
  select_where-all p [] h = refl
  select_where-all p (x ∷ xs) h = ground (arith, select_where-all p xs)

  pub any_where-find :
      (p : A → Bool) (xs : List A) (a : A) → find_where p xs ≡ some a → any_where p xs ≡ true
  unfolding any_where find_where
  any_where-find p [] a h = ground arith
  any_where-find p (x ∷ xs) a h = ground (arith, any_where-find p xs a)
