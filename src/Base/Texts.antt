-- ===== src/Base/Texts.antt =====
-- Texts walked character by character: slices and separators.
use Prim.Native.Nat.{ℕ, zero, suc}
use Prim.Native.Char.{Char, code}
use mathlib.Core.Bool.{Bool, true, false, ◌&&◌, ◌||◌}
use x_bray.Base.Tests.{leb}
use Prim.Native.String.{String, [], ◌∷◌}

-- `text[:n]`
unfoldable pub truncate : ℕ → String → String
truncate zero text = ""
truncate (suc n) [] = ""
truncate (suc n) (c ∷ text) = c ∷ truncate n text

-- `text.isascii()`
unfoldable pub is_ascii : String → Bool
is_ascii [] = true
is_ascii (c ∷ text) = leb (code c) 127 && is_ascii text

-- `[0-9a-f]`
abbrev pub is_hex_digit : Char → Bool
is_hex_digit c =
    (leb b'0' (code c) && leb (code c) b'9') || (leb b'a' (code c) && leb (code c) b'f')

-- A text of so many hexadecimal digits, no more.
unfoldable pub is_hex_text : ℕ → String → Bool
is_hex_text zero [] = true
is_hex_text zero (c ∷ text) = false
is_hex_text (suc n) [] = false
is_hex_text (suc n) (c ∷ text) = is_hex_digit c && is_hex_text n text
