-- ===== src/Base/Texts.antt =====
-- The strings of Go as lists of bytes, and `strings.TrimSpace`. A white-space rune of Unicode has
-- one, two or three bytes in UTF-8; a rune is recognised by its bytes at either end of a text.
mod Trim
unfoldable pub use Trim.*
use stacks.Base.Orders.{Order, nat_order, list_order}
use Prim.Native.Char.{code}
use Prim.Native.String.{String}
use Prim.Native.Nat.{ℕ}
use mathlib.Core.Bool.{Bool, true, false}
use mathlib.Core.List.{List, [], ◌∷◌}

-- A literal of the source; all of them are ASCII.
unfoldable pub bytes : String → List ℕ
bytes String.[] = []
bytes (String.◌∷◌ c s) = code c ∷ bytes s

-- `text == ""`
abbrev pub is_empty : List ℕ → Bool
is_empty [] = true
is_empty (b ∷ s) = false

-- Go compares strings byte by byte.
instance abbrev pub text_order : Order (List ℕ)
text_order = list_order
