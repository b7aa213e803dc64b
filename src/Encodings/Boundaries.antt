-- ===== src/Encodings/Boundaries.antt =====
-- Where a rune starts: a text of UTF-8 cut in front of a byte that continues no rune.
use stacks.Base.{
  inr, inl, Bool-cases, ℕ, zero, suc, ◌≡◌, refl, ◌-◌, Bool, true, false, not, ◌&&◌, [], ◌∷◌, ◌++◌,
  Text, arith,
}
use stacks.Encodings.Utf8.{continues, width, valid_from, valid_string}

-- The text goes on with at least `n` continuation bytes.
abbrev continues_for : ℕ → Text → Bool
continues_for zero s = true
continues_for (suc n) [] = false
continues_for (suc n) (b ∷ s) = continues b && continues_for n s

-- Nothing follows, or the start of a rune.
abbrev pub starts : Text → Bool
starts [] = true
starts (b ∷ s) = not (continues b)

-- What a rune is followed by does not matter to its width, where the rune is whole.
width-continues : (a : ℕ) (s : Text) → continues_for (width a s - 1) s ≡ true
unfolding width
width-continues a [] = ground arith
width-continues a (b ∷ []) = ground arith
width-continues a (b ∷ c ∷ []) = ground arith
width-continues a (b ∷ c ∷ d ∷ s) = ground arith

width-append :
    (a : ℕ) (p q : Text)
    → continues_for (width a (p ++ q) - 1) p ≡ true
    → width a p ≡ width a (p ++ q)
unfolding width
width-append a [] [] h = refl
width-append a [] (b ∷ []) h = ground arith
width-append a [] (b ∷ c ∷ []) h = ground arith
width-append a [] (b ∷ c ∷ d ∷ q) h = ground arith
width-append a (b ∷ []) [] h = refl
width-append a (b ∷ []) (c ∷ []) h = ground arith
width-append a (b ∷ []) (c ∷ d ∷ q) h = ground arith
width-append a (b ∷ c ∷ []) [] h = refl
width-append a (b ∷ c ∷ []) (d ∷ q) h = ground arith
width-append a (b ∷ c ∷ d ∷ p) q h = refl

cut_from :
    (n : ℕ) (p q : Text)
    → continues_for n (p ++ q) ≡ true
    → valid_from n (p ++ q) ≡ true
    → starts q ≡ true
    → (continues_for n p ≡ true) × (valid_from n p ≡ true) × (valid_from 0 q ≡ true)
unfolding valid_from
cut_from zero [] q c v h = (refl, refl, v)
cut_from (suc n) [] [] c v h = cc
cut_from (suc n) [] (b ∷ q) c v h = absurd (ground arith)
cut_from (suc n) (a ∷ p) q c v h =
    let (cp, vp, vq) = cut_from n p q (ground arith) v h in (ground arith, vp, vq)
cut_from zero (a ∷ p) q c v h = go (width a (p ++ q)) refl (λ n. cut_from n p q)
  where
    go :
        (k : ℕ)
        → width a (p ++ q) ≡ k
        → ((n : ℕ)
            → continues_for n (p ++ q) ≡ true
            → valid_from n (p ++ q) ≡ true
            → starts q ≡ true
            → (continues_for n p ≡ true) × (valid_from n p ≡ true) × (valid_from 0 q ≡ true))
        → (true ≡ true) × (valid_from 0 (a ∷ p) ≡ true) × (valid_from 0 q ≡ true)
    go zero e ih = let refused : false ≡ true = rw (e, valid_from) at v in cc
    go (suc n) e ih =
        let follows : width a (p ++ q) - 1 ≡ n = omega (arith, e) in
        let (cp, vp, vq) =
          ih n (rw follows at (width-continues a (p ++ q))) (rw (e, valid_from) at v) h in
        let whole : width a p ≡ suc n = rw (e) at (width-append a p q (rw follows cp)) in
        (refl, rw (whole, valid_from) vp, vq)

-- Both parts of a text that is cut where a rune may start are valid.
pub valid_string-append :
    (p q : Text)
    → valid_string (p ++ q) ≡ true
    → starts q ≡ true
    → (valid_string p ≡ true) × (valid_string q ≡ true)
unfolding valid_string
valid_string-append p q v h = let (whole, vp, vq) = cut_from 0 p q refl v h in (vp, vq)

width-starts : (a : ℕ) (s : Text) → continues a ≡ true → width a s ≡ 0
unfolding width
width-starts a [] h = ground arith
width-starts a (b ∷ []) h = ground arith
width-starts a (b ∷ c ∷ []) h = ground arith
width-starts a (b ∷ c ∷ d ∷ s) h = ground arith

-- A text that is valid begins with a rune.
pub valid_string-starts : (s : Text) → valid_string s ≡ true → starts s ≡ true
unfolding valid_string valid_from
valid_string-starts [] h = refl
valid_string-starts (a ∷ s) h = elim (Bool-cases (continues a)) [
  | inl e ↦
      let refused : false ≡ true = rw (valid_string, valid_from, width-starts a s e) at h in cc
  | inr e ↦ rw e refl
]
