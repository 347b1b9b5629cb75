-- ===== src/Admin/Cookies.antt =====
-- `_flow_cookie`, `_cookie_parts` and the pattern `_OPAQUE` of backend/admin_auth.py.
use Prim.Native.Char.{Char, code}
use Prim.Native.String
use Prim.Native.String.{[], ◌∷◌}
use text.Mathlib.TextEquality.{Char-path}
use text.Mathlib.TextLemmas.{nil-append, cons-append}
use x_bray.Base.{
  ℕ, zero, suc, String, Bool, true, false, Option, none, some, ◌≡◌, ◌≢◌, ◌↔◌, refl, arith, ◌&&◌,
  ◌||◌, not, leb, nat_eq, if◌then◌else◌, ap, ◌∙◌, Bool-cases, inl, inr,
}

abbrev pub is_opaque_char : ℕ → Bool
is_opaque_char c =
    (leb b'A' c && leb c b'Z')
    || (leb b'a' c && leb c b'z')
    || (leb b'0' c && leb c b'9')
    || nat_eq c b'_'
    || nat_eq c b'-'

-- `[A-Za-z0-9_-]{n}` on the whole text.
unfoldable pub matches : ℕ → String → Bool
matches zero [] = true
matches zero (c ∷ text) = false
matches (suc n) [] = false
matches (suc n) (c ∷ text) = is_opaque_char (code c) && matches n text

abbrev pub is_opaque : String → Bool
is_opaque text = matches 43 text

-- `text.count(".")`
unfoldable pub count_dots : String → ℕ
count_dots [] = 0
count_dots (c ∷ text) =
    let rest = count_dots text in if nat_eq (code c) b'.' then suc rest else rest

abbrev pub prepend : Char → String × String → String × String
prepend c (before, after) = (c ∷ before, after)

-- `text.split(".", 1)`, on a text that has a dot.
unfoldable pub split_dot : String → String × String
split_dot [] = ("", "")
split_dot (c ∷ text) =
    let rest = split_dot text in if nat_eq (code c) b'.' then ("", text) else prepend c rest

unfoldable pub flow_cookie : String → String → String
flow_cookie handle binding = String.◌++◌ handle (String.◌++◌ "." binding)

abbrev pub opaque_parts : String × String → Option (String × String)
opaque_parts (handle, binding) =
    if not (is_opaque handle) || not (is_opaque binding) then none else some (handle, binding)

unfoldable pub cookie_parts : Option String → Option (String × String)
unfolding matches count_dots split_dot
cookie_parts none = none
cookie_parts (some value) =
    if not (nat_eq (count_dots value) 1) then none else opaque_parts (split_dot value)

matches-no_dots : (n : ℕ) (text : String) → matches n text ≡ true → count_dots text ≡ 0
unfolding matches count_dots
matches-no_dots zero [] h = refl
matches-no_dots zero (c ∷ text) h = ground arith
matches-no_dots (suc n) [] h = ground arith
matches-no_dots (suc n) (c ∷ text) h = ground (arith, matches-no_dots n text)

abbrev dot : Char
dot = "."

flow_cookie-empty : (binding : String) → flow_cookie "" binding ≡ dot ∷ binding
unfolding flow_cookie
flow_cookie-empty binding =
    nil-append _ ∙ cons-append _ _ _ ∙ ap (λ (text : String). dot ∷ text) (nil-append binding)

flow_cookie-cons :
    (c : Char) (handle binding : String)
    → flow_cookie (c ∷ handle) binding ≡ c ∷ flow_cookie handle binding
unfolding flow_cookie
flow_cookie-cons c handle binding = cons-append _ _ _

count_dots-flow_cookie :
    (handle binding : String)
    → count_dots handle ≡ 0
    → count_dots binding ≡ 0
    → count_dots (flow_cookie handle binding) ≡ 1
unfolding count_dots
count_dots-flow_cookie [] binding h k = rw (flow_cookie-empty binding) (ground arith)
count_dots-flow_cookie (c ∷ handle) binding h k =
    rw (flow_cookie-cons c handle binding) (ground (arith, count_dots-flow_cookie handle binding))

split_dot-flow_cookie :
    (handle binding : String)
    → count_dots handle ≡ 0
    → split_dot (flow_cookie handle binding) ≡ (handle, binding)
unfolding count_dots split_dot
split_dot-flow_cookie [] binding h = rw (flow_cookie-empty binding) (ground arith)
split_dot-flow_cookie (c ∷ handle) binding h =
    rw (flow_cookie-cons c handle binding) (ground (arith, split_dot-flow_cookie handle binding))

-- The cookie of an opaque handle and an opaque binding reads back as the two.
pub cookie_parts-flow_cookie :
    (handle binding : String)
    → is_opaque handle ≡ true
    → is_opaque binding ≡ true
    → cookie_parts (some (flow_cookie handle binding)) ≡ some (handle, binding)
unfolding cookie_parts
cookie_parts-flow_cookie handle binding h k = ground (
  arith,
  count_dots-flow_cookie handle binding (matches-no_dots 43 handle h)
      (matches-no_dots 43 binding k),
  split_dot-flow_cookie handle binding (matches-no_dots 43 handle h),
)

prepend_parts :
    (c : Char) (parts : String × String) (value : String)
    → value ≡ flow_cookie parts.0 parts.1
    → c ∷ value ≡ flow_cookie (prepend c parts).0 (prepend c parts).1
prepend_parts c (before, after) value h = cc (h, flow_cookie-cons c before after)

flow_cookie-split_dot :
    (value : String)
    → count_dots value ≢ 0
    → value ≡ flow_cookie (split_dot value).0 (split_dot value).1
unfolding count_dots split_dot
flow_cookie-split_dot [] h = ground arith
flow_cookie-split_dot (c ∷ value) h = elim (Bool-cases (nat_eq (code c) b'.')) [
  | inl e ↦ rw e (cc (flow_cookie-empty value, Char-path c dot (ground arith)))
  | inr e ↦
      rw e (prepend_parts c (split_dot value) value (flow_cookie-split_dot value (λ z. h (rw e z))))
]

opaque_parts-of_some :
    (parts : String × String) (handle binding : String)
    → opaque_parts parts ≡ some (handle, binding)
    → (parts ≡ (handle, binding)) × (is_opaque handle ≡ true) × (is_opaque binding ≡ true)
opaque_parts-of_some (before, after) handle binding h = ground arith

parts_of_cookie :
    (value handle binding : String)
    → cookie_parts (some value) ≡ some (handle, binding)
    → (value ≡ flow_cookie handle binding) × (is_opaque handle ≡ true) × (is_opaque binding ≡ true)
unfolding cookie_parts
parts_of_cookie value handle binding h =
    ground
      (arith, opaque_parts-of_some (split_dot value) handle binding, flow_cookie-split_dot value)

-- A cookie value reads as a handle and a binding exactly when both are opaque and the value is the one
-- that they are written as.
pub cookie_parts_iff :
    (value handle binding : String)
    → (cookie_parts (some value) ≡ some (handle, binding)) ↔ (
        (value ≡ flow_cookie handle binding)
        × (is_opaque handle ≡ true)
        × (is_opaque binding ≡ true))
cookie_parts_iff value handle binding = (
  parts_of_cookie value handle binding,
  λ (e, h, k). rw e (cookie_parts-flow_cookie handle binding h k),
)
