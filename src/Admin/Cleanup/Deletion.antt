-- ===== src/Admin/Cleanup/Deletion.antt =====
-- What a deletion with a limit leaves of a table.
use x_bray.Base.{
  ℕ, zero, suc, length, ◌+◌, ◌≤◌, Bool, true, false, List, [], ◌∷◌, ◌≡◌, refl, arith, count_where,
  any_where, find_where, select_where,
}
use x_bray.Admin.Cleanup.{delete_limit, deleted_limit}

module _ {ℓ} {A : Type ℓ} where
  pub any_where-delete_limit :
      (p q : A → Bool) (n : ℕ) (rows : List A)
      → any_where p rows ≡ false
      → any_where p (delete_limit q n rows) ≡ false
  unfolding any_where delete_limit
  any_where-delete_limit p q n [] h = refl
  any_where-delete_limit p q zero (x ∷ xs) h = h
  any_where-delete_limit p q (suc n) (x ∷ xs) h =
      ground (arith, any_where-delete_limit p q n xs, any_where-delete_limit p q (suc n) xs)

  pub count_where-delete_limit :
      (p q : A → Bool) (n : ℕ) (rows : List A)
      → count_where p (delete_limit q n rows) ≤ count_where p rows
  unfolding count_where delete_limit
  count_where-delete_limit p q n [] = omega arith
  count_where-delete_limit p q zero (x ∷ xs) = omega arith
  count_where-delete_limit p q (suc n) (x ∷ xs) =
      ground (arith, count_where-delete_limit p q n xs, count_where-delete_limit p q (suc n) xs)

  -- The rows that meet the condition lose as many as were deleted.
  pub count_where-deleted :
      (p : A → Bool) (n : ℕ) (rows : List A)
      → count_where p (delete_limit p n rows) + deleted_limit p n rows ≡ count_where p rows
  unfolding count_where delete_limit
  count_where-deleted p n [] = ground arith
  count_where-deleted p zero (x ∷ xs) = ground arith
  count_where-deleted p (suc n) (x ∷ xs) =
      ground (arith, count_where-deleted p n xs, count_where-deleted p (suc n) xs)

  -- Rows that only meet another condition are found as before.
  pub find_where-delete_limit :
      (p q : A → Bool) (n : ℕ) (rows : List A)
      → ((x : A) → p x ≡ true → q x ≡ false)
      → find_where p (delete_limit q n rows) ≡ find_where p rows
  unfolding find_where delete_limit
  find_where-delete_limit p q n [] h = refl
  find_where-delete_limit p q zero (x ∷ xs) h = refl
  find_where-delete_limit p q (suc n) (x ∷ xs) h =
      ground
        (arith, h x, find_where-delete_limit p q n xs h, find_where-delete_limit p q (suc n) xs h)

  -- Rows that do not meet the condition stay, in their order.
  pub select_where-delete_limit :
      (p q : A → Bool) (n : ℕ) (rows : List A)
      → ((x : A) → q x ≡ true → p x ≡ false)
      → select_where q (delete_limit p n rows) ≡ select_where q rows
  unfolding select_where delete_limit
  select_where-delete_limit p q n [] h = refl
  select_where-delete_limit p q zero (x ∷ xs) h = refl
  select_where-delete_limit p q (suc n) (x ∷ xs) h =
      ground (
        arith,
        h x,
        select_where-delete_limit p q n xs h,
        select_where-delete_limit p q (suc n) xs h,
      )

  pub length-delete_limit :
      (p : A → Bool) (n : ℕ) (rows : List A)
      → length (delete_limit p n rows) + deleted_limit p n rows ≡ length rows
  unfolding count_where delete_limit
  length-delete_limit p n [] = ground arith
  length-delete_limit p zero (x ∷ xs) = ground arith
  length-delete_limit p (suc n) (x ∷ xs) =
      ground (arith, length-delete_limit p n xs, length-delete_limit p (suc n) xs)
