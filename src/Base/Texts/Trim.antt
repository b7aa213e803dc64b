-- ===== src/Base/Texts/Trim.antt =====
-- `strings.TrimSpace` on bytes, and that it leaves nothing to trim.
use stacks.Base.Tests.{leb, ◌==◌, if◌then◌else◌}
use Prim.Native.Nat.{ℕ, zero, suc}
use mathlib.Core.Path.{◌≡◌, refl, sym, ap, ◌∙◌}
use mathlib.Core.Bool.{Bool, ◌&&◌, ◌||◌}
use mathlib.Core.List.{List, [], ◌∷◌, ◌++◌, reverse, reverse-append, reverse-reverse}
use native.Mathlib.Omega.{arith}

abbrev pub Text : Type 0
Text = List ℕ

-- `unicode.IsSpace` of the rune with these bytes.
unfoldable pub space_one : ℕ → Bool
space_one a = (leb 9 a && leb a 13) || a == 32

unfoldable pub space_two : ℕ → ℕ → Bool
space_two a b = a == 0xC2 && (b == 0x85 || b == 0xA0)

unfoldable pub space_three : ℕ → ℕ → ℕ → Bool
space_three a b c =
    (a == 0xE1 && b == 0x9A && c == 0x80)
    || (a == 0xE2
        && b == 0x80
        && ((leb 0x80 c && leb c 0x8A) || c == 0xA8 || c == 0xA9 || c == 0xAF))
    || (a == 0xE2 && b == 0x81 && c == 0x9F)
    || (a == 0xE3 && b == 0x80 && c == 0x80)

module _ (one : ℕ → Bool) (two : ℕ → ℕ → Bool) (three : ℕ → ℕ → ℕ → Bool) where
  -- How many bytes the white-space rune at the head has, or 0.
  unfoldable pub lead : Text → ℕ
  lead [] = 0
  lead (a ∷ []) = if one a then 1 else 0
  lead (a ∷ b ∷ []) = if one a then 1 else if two a b then 2 else 0
  lead (a ∷ b ∷ c ∷ s) = if one a then 1 else if two a b then 2 else if three a b c then 3 else 0

  -- Drops `n` bytes, and then white space.
  unfoldable pub trim_from : ℕ → Text → Text
  unfolding lead
  trim_from n [] = []
  trim_from (suc n) (a ∷ s) = trim_from n s
  trim_from zero (a ∷ s) = elim (lead (a ∷ s)) [ zero ↦ a ∷ s | suc n ↦ trim_from n s ]

  pub lead-trim_from : (n : ℕ) (s : Text) → lead (trim_from n s) ≡ 0
  unfolding trim_from
  lead-trim_from n [] = refl
  lead-trim_from (suc n) (a ∷ s) = lead-trim_from n s
  lead-trim_from zero (a ∷ s) =
      ground (arith, lead-trim_from 0 s, lead-trim_from 1 s, lead-trim_from 2 s)

  trim_from-fixed : (s : Text) → lead s ≡ 0 → trim_from 0 s ≡ s
  unfolding trim_from
  trim_from-fixed [] h = refl
  trim_from-fixed (a ∷ s) h = ground arith

  trim_from-suffix : (n : ℕ) (s : Text) → (p : Text) × (s ≡ p ++ trim_from n s)
  unfolding trim_from
  trim_from-suffix n [] = ([], refl)
  trim_from-suffix (suc n) (a ∷ s) = let (p, e) = trim_from-suffix n s in (a ∷ p, ap (◌∷◌ a) e)
  trim_from-suffix zero (a ∷ s) = go (lead (a ∷ s)) refl (λ n. trim_from-suffix n s)
    where
      go :
          (k : ℕ)
          → lead (a ∷ s) ≡ k
          → ((n : ℕ) → (p : Text) × (s ≡ p ++ trim_from n s))
          → (p : Text) × (a ∷ s ≡ p ++ trim_from 0 (a ∷ s))
      go zero e ih = ([], rw (e, trim_from))
      go (suc n) e ih = let (p, f) = ih n in (a ∷ p, rw (e, trim_from) (ap (◌∷◌ a) f))

  lead-prefix : (p w : Text) → lead (p ++ w) ≡ 0 → lead p ≡ 0
  unfolding lead
  lead-prefix [] w h = refl
  lead-prefix (a ∷ []) [] h = h
  lead-prefix (a ∷ []) (b ∷ []) h = ground arith
  lead-prefix (a ∷ []) (b ∷ c ∷ w) h = ground arith
  lead-prefix (a ∷ b ∷ []) [] h = h
  lead-prefix (a ∷ b ∷ []) (c ∷ w) h = ground arith
  lead-prefix (a ∷ b ∷ c ∷ p) w h = h

abbrev trim_left : Text → Text
trim_left = trim_from space_one space_two space_three 0

-- From the right the bytes of a rune are met in reverse.
abbrev trim_back : Text → Text
trim_back = trim_from space_one (λ b a. space_two a b) (λ c b a. space_three a b c) 0

abbrev trim_right : Text → Text
trim_right s = reverse (trim_back (reverse s))

-- `strings.TrimSpace`
unfoldable pub trim_space : Text → Text
unfolding trim_from space_one space_two space_three
trim_space s = trim_right (trim_left s)

trim_right-prefix : (s : Text) → (w : Text) × (s ≡ trim_right s ++ w)
trim_right-prefix s =
    let (p, e) =
      trim_from-suffix space_one (λ b a. space_two a b) (λ c b a. space_three a b c) 0
        (reverse s) in
    (reverse p, sym (reverse-reverse s) ∙ ap reverse e ∙ reverse-append p (trim_back (reverse s)))

trim_right-trim_right : (s : Text) → trim_right (trim_right s) ≡ trim_right s
trim_right-trim_right s = rw (reverse-reverse (trim_back (reverse s))) (
    ap reverse (
      trim_from-fixed space_one (λ b a. space_two a b) (λ c b a. space_three a b c)
        (trim_back (reverse s))
        (lead-trim_from space_one (λ b a. space_two a b) (λ c b a. space_three a b c) 0
          (reverse s))))

-- What was trimmed stays as it is: nothing is left to trim at either end.
pub trim_space-trim_space : (s : Text) → trim_space (trim_space s) ≡ trim_space s
trim_space-trim_space s =
    unfold trim_space in
    let t = trim_left s in
    let (w, e) = trim_right-prefix t in
    let starts : lead space_one space_two space_three t ≡ 0 =
      lead-trim_from space_one space_two space_three 0 s in
    let kept : lead space_one space_two space_three (trim_right t) ≡ 0 =
      lead-prefix space_one space_two space_three (trim_right t) w (rw e at starts) in
    rw (trim_from-fixed space_one space_two space_three (trim_right t) kept)
      (trim_right-trim_right t)
