-- ===== src/Source/Table.antt =====
-- Dictionaries with text keys, as lists of entries.
use x_bray.Base.{
  ℕ, ◌+◌, String, false, Option, none, some, List, [], ◌∷◌, ◌≡◌, refl, ◌==◌, eq_refl, eq_iff, arith,
  inl, inr, Bool-cases, if◌then◌else◌,
}

module _ {ℓ} {A : Type ℓ} where
  -- `d.get(key)`
  unfoldable pub lookup : String → List (String × A) → Option A
  lookup key [] = none
  lookup key (entry ∷ entries) = if entry.0 == key then some entry.1 else lookup key entries

  -- `d[key] = value`
  unfoldable pub put : String → A → List (String × A) → List (String × A)
  put key value [] = (key, value) ∷ []
  put key value (entry ∷ entries) =
      let rest = put key value entries in
      if entry.0 == key then (key, value) ∷ entries else entry ∷ rest

  pub lookup-put :
      (key : String) (value : A) (entries : List (String × A))
      → lookup key (put key value entries) ≡ some value
  unfolding lookup put
  lookup-put key value [] = rw (eq_refl key) refl
  lookup-put key value (entry ∷ entries) = elim (Bool-cases (entry.0 == key)) [
    | inl same ↦ rw (same, eq_refl key) refl
    | inr other ↦ rw (other, other, lookup-put key value entries) refl
  ]

  pub lookup-put_other :
      (key other : String) (value : A) (entries : List (String × A))
      → (key == other) ≡ false
      → lookup other (put key value entries) ≡ lookup other entries
  unfolding lookup put
  lookup-put_other key other value [] h = rw h refl
  lookup-put_other key other value (entry ∷ entries) h =
      ground (arith, h, eq_iff entry.0 key, lookup-put_other key other value entries h)

-- `d.get(key, 0)`
abbrev pub count_of : Option ℕ → ℕ
count_of none = 0
count_of (some n) = n

unfoldable pub total : List (String × ℕ) → ℕ
total [] = 0
total (entry ∷ entries) = entry.1 + total entries

-- `d[key] = d.get(key, 0) + 1`
unfoldable pub increment : String → List (String × ℕ) → List (String × ℕ)
unfolding lookup put
increment key entries = put key (count_of (lookup key entries) + 1) entries

total-put :
    (key : String) (value : ℕ) (entries : List (String × ℕ))
    → total (put key value entries) + count_of (lookup key entries) ≡ total entries + value
unfolding total lookup put
total-put key value [] = omega arith
total-put key value (entry ∷ entries) = elim (Bool-cases (entry.0 == key)) [
  | inl same ↦ rw same (omega arith)
  | inr other ↦ rw other (omega (arith, total-put key value entries))
]

pub total-increment :
    (key : String) (entries : List (String × ℕ)) → total (increment key entries) ≡ total entries + 1
unfolding increment
total-increment key entries =
    omega (arith, total-put key (count_of (lookup key entries) + 1) entries)

-- The count of a key, and of the others, after an increment.
pub count-increment :
    (key : String) (entries : List (String × ℕ))
    → count_of (lookup key (increment key entries)) ≡ count_of (lookup key entries) + 1
unfolding increment
count-increment key entries = rw (lookup-put key (count_of (lookup key entries) + 1) entries) refl

pub count-increment_other :
    (key other : String) (entries : List (String × ℕ))
    → (key == other) ≡ false
    → count_of (lookup other (increment key entries)) ≡ count_of (lookup other entries)
unfolding increment
count-increment_other key other entries h =
    rw (lookup-put_other key other (count_of (lookup key entries) + 1) entries h) refl
