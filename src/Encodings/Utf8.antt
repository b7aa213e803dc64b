-- ===== src/Encodings/Utf8.antt =====
-- `unicode/utf8`: `ValidString` and `RuneCountInString` on the bytes of a string.
use stacks.Base.{
  ℕ, zero, suc, ◌-◌, ◌*◌, ◌+◌, ◌≤◌, Bool, true, false, ◌&&◌, [], ◌∷◌, Text, leb, ltb, ◌==◌,
  if◌then◌else◌, length, arith,
}

-- A continuation byte.
abbrev pub continues : ℕ → Bool
continues b = leb 0x80 b && leb b 0xBF

-- The bytes that may follow the first byte `a` of a rune of two, three or four bytes.
abbrev pub second_fits : ℕ → ℕ → Bool
second_fits a b =
    leb (if a == 0xE0 then 0xA0 else if a == 0xF0 then 0x90 else 0x80) b
    && leb b (if a == 0xED then 0x9F else if a == 0xF4 then 0x8F else 0xBF)

abbrev pub leads_two : ℕ → Bool
leads_two a = leb 0xC2 a && leb a 0xDF

abbrev pub leads_three : ℕ → Bool
leads_three a = leb 0xE0 a && leb a 0xEF

abbrev pub leads_four : ℕ → Bool
leads_four a = leb 0xF0 a && leb a 0xF4

-- How many bytes the rune has that starts with `a` and goes on in the text, or 0 where the bytes
-- are no rune.
unfoldable pub width : ℕ → Text → ℕ
width a [] = if ltb a 0x80 then 1 else 0
width a (b ∷ []) = if ltb a 0x80 then 1 else if leads_two a && second_fits a b then 2 else 0
width a (b ∷ c ∷ []) =
    if ltb a 0x80
    then 1
    else if leads_two a && second_fits a b
    then 2
    else if leads_three a && second_fits a b && continues c
    then 3
    else 0
width a (b ∷ c ∷ d ∷ s) =
    if ltb a 0x80
    then 1
    else if leads_two a && second_fits a b
    then 2
    else if leads_three a && second_fits a b && continues c
    then 3
    else if leads_four a && second_fits a b && (continues c && continues d)
    then 4
    else 0

-- Passes over `n` bytes, and then reads runes.
unfoldable pub valid_from : ℕ → Text → Bool
unfolding width
valid_from n [] = true
valid_from (suc n) (a ∷ s) = valid_from n s
valid_from zero (a ∷ s) = elim (width a s) [ zero ↦ false | suc n ↦ valid_from n s ]

-- `utf8.ValidString`
unfoldable pub valid_string : Text → Bool
valid_string text = valid_from 0 text

-- Passes over `n` bytes, and then counts runes; a byte that starts none counts as one.
unfoldable pub count_from : ℕ → Text → ℕ
unfolding width
count_from n [] = 0
count_from (suc n) (a ∷ s) = count_from n s
count_from zero (a ∷ s) = suc (count_from (width a s - 1) s)

-- `utf8.RuneCountInString`
unfoldable pub rune_count : Text → ℕ
rune_count text = count_from 0 text

width_small : (a : ℕ) (s : Text) → width a s ≤ 4
unfolding width
width_small a [] = ground arith
width_small a (b ∷ []) = ground arith
width_small a (b ∷ c ∷ []) = ground arith
width_small a (b ∷ c ∷ d ∷ s) = ground arith

length-count_from : (n : ℕ) (s : Text) → length s ≤ n + 4 * count_from n s
unfolding count_from
length-count_from n [] = omega arith
length-count_from (suc n) (a ∷ s) = omega (arith, length-count_from n s)
length-count_from zero (a ∷ s) = omega (arith, length-count_from (width a s - 1) s, width_small a s)

-- A text has at most four bytes for each of its runes.
pub length-rune_count : (s : Text) → length s ≤ 4 * rune_count s
unfolding rune_count
length-rune_count s = omega (arith, length-count_from 0 s)
