-- ===== src/Encodings/Hex.antt =====
-- `encoding/hex`: `EncodeToString` and `DecodeString`.
use stacks.Base.{
  ℕ, ◌+◌, ◌-◌, ◌*◌, ◌/◌, ◌%◌, ◌<◌, ◌≡◌, refl, Bool, true, ◌&&◌, [], ◌∷◌, Text, leb, ltb,
  if◌then◌else◌, map, all, Option, none, some, arith,
}
use mathlib.Core.Path.{subst}

-- The digits `0123456789abcdef`.
abbrev pub hex_digit : ℕ → ℕ
hex_digit n = if ltb n 10 then 48 + n else 87 + n

-- `fromHexChar`: the digits in both cases.
abbrev pub hex_value : ℕ → Option ℕ
hex_value c =
    if leb 48 c && leb c 57
    then some (c - 48)
    else if leb 97 c && leb c 102
    then some (c - 87)
    else if leb 65 c && leb c 70
    then some (c - 55)
    else none

-- `hex.EncodeToString`
unfoldable pub encode_to_string : Text → Text
encode_to_string [] = []
encode_to_string (b ∷ s) = hex_digit (b / 16) ∷ hex_digit (b % 16) ∷ encode_to_string s

abbrev join_nibbles : Option ℕ → Option ℕ → Option Text → Option Text
join_nibbles (some high) (some low) (some rest) = some ((16 * high + low) ∷ rest)
join_nibbles high low rest = none

-- `hex.DecodeString`; every error is `none`.
unfoldable pub decode_string : Text → Option Text
decode_string [] = some []
decode_string (a ∷ []) = none
decode_string (a ∷ b ∷ s) = join_nibbles (hex_value a) (hex_value b) (decode_string s)

abbrev pub is_byte : ℕ → Bool
is_byte b = ltb b 256

-- The digits of one case: the letters `A` to `F` as `a` to `f`.
abbrev pub lower_digit : ℕ → ℕ
lower_digit c = if leb 65 c && leb c 70 then c + 32 else c

pub decode_string-encode_to_string :
    (s : Text) → all is_byte s ≡ true → decode_string (encode_to_string s) ≡ some s
unfolding decode_string encode_to_string all
decode_string-encode_to_string [] h = refl
decode_string-encode_to_string (b ∷ s) h =
    ground (arith, decode_string-encode_to_string s (ground arith))

pair-eq-some :
    (high low : Option ℕ) (rest : Option Text) {result : Text}
    → join_nibbles high low rest ≡ some result
    → (x : ℕ) × (y : ℕ) × (t : Text) × (high ≡ some x)
      × (low ≡ some y)
      × (rest ≡ some t)
      × (result ≡ (16 * x + y) ∷ t)
pair-eq-some none low rest h = cc
pair-eq-some (some x) none rest h = cc
pair-eq-some (some x) (some y) none h = cc
pair-eq-some (some x) (some y) (some t) h = (x, y, t, refl, refl, refl, cc)

hex_value-eq-some :
    (c : ℕ) {x : ℕ} → hex_value c ≡ some x → (x < 16) × (hex_digit x ≡ lower_digit c)
hex_value-eq-some c h = (ground arith, ground arith)

-- A text that decodes is the encoding of bytes, up to the case of its digits.
pub decode_string-eq-some :
    (s : Text) {result : Text}
    → decode_string s ≡ some result
    → (encode_to_string result ≡ map lower_digit s) × (all is_byte result ≡ true)
unfolding decode_string encode_to_string all
decode_string-eq-some [] {result} h =
    let empty : [] ≡ result = cc in
    subst (λ r. (encode_to_string r ≡ []) × (all is_byte r ≡ true)) empty (refl, refl)
decode_string-eq-some (a ∷ []) h = cc
decode_string-eq-some (a ∷ b ∷ s) h =
    let (x, y, t, ex, ey, et, e) = pair-eq-some (hex_value a) (hex_value b) (decode_string s) h in
    let (lx, dx) = hex_value-eq-some a ex in
    let (ly, dy) = hex_value-eq-some b ey in
    let (same_rest, bytes_rest) = decode_string-eq-some s et in
    let high : (16 * x + y) / 16 ≡ x = omega arith in
    let low : (16 * x + y) % 16 ≡ y = omega arith in
    rw (e, high, low, dx, dy, same_rest, bytes_rest) (refl, ground arith)
