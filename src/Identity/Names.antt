-- ===== src/Identity/Names.antt =====
-- core/identity/identity.go: the normal forms of names and addresses.
use stacks.Base.{
  ℕ, zero, suc, ◌+◌, Bool, false, not, ◌&&◌, ◌||◌, List, [], ◌∷◌, ◌++◌, Option, none, some, Text,
  is_empty, trim_space, same, text_order, ◌==◌, any, if◌then◌else◌, lead, space_one, space_two,
  space_three,
}

-- The code that is not of this repository: `norm.NFKC.String`, the Unicode tables of
-- `strings.ToLower`, and `mail.ParseAddress`, which gives the name and the address.
pub record TextRules : Type 0 where
  pub nfkc : Text → Text
  pub to_lower : Text → Text
  pub parse_address : Text → Option (Text × Text)

-- Ends a word, if there is one.
abbrev end_word : Text → List Text → List Text
end_word [] rest = rest
end_word (b ∷ word) rest = (b ∷ word) ∷ rest

-- Drops `n` bytes of white space, and then splits the text; `word` is what was read of a word.
unfoldable pub fields_from : ℕ → Text → Text → List Text
unfolding lead space_one space_two space_three
fields_from n [] word = end_word word []
fields_from (suc n) (a ∷ s) word = fields_from n s word
fields_from zero (a ∷ s) word = elim (lead space_one space_two space_three (a ∷ s)) [
  | zero ↦ fields_from zero s (word ++ a ∷ [])
  | suc n ↦ end_word word (fields_from n s [])
]

-- `strings.Fields`
unfoldable pub fields : Text → List Text
fields text = fields_from 0 text []

-- `strings.Join(words, " ")`
abbrev pub join_words : List Text → Text
join_words [] = []
join_words (word ∷ []) = word
join_words (word ∷ next ∷ words) = word ++ (32 ∷ join_words (next ∷ words))

-- `strings.Count(text, "@")`
abbrev pub count_at_signs : Text → ℕ
count_at_signs [] = 0
count_at_signs (b ∷ text) = (if b == 64 then 1 else 0) + count_at_signs text

-- `strings.ContainsAny(text, "\r\n\t ")`
abbrev pub contains_blank : Text → Bool
contains_blank = any (λ b. b == 13 || b == 10 || b == 9 || b == 32)

module _ (rules : TextRules) where
  unfoldable pub normalize_name : Text → Text
  normalize_name value = rules.to_lower (join_words (fields (rules.nfkc value)))

  unfoldable pub normalize_email : Text → Text
  normalize_email value = rules.to_lower (trim_space (rules.nfkc value))

  -- `err == nil && parsed.Name == "" && NormalizeEmail(parsed.Address) == normalized`
  unfoldable pub plain_address : Option (Text × Text) → Text → Bool
  plain_address none normalized = false
  plain_address (some (name, address)) normalized =
      is_empty name && same (normalize_email address) normalized

  unfoldable pub valid_email : Text → Bool
  valid_email value =
      let normalized = normalize_email value in
      if is_empty normalized || not (count_at_signs normalized == 1) || contains_blank normalized
      then false
      else plain_address (rules.parse_address normalized) normalized
