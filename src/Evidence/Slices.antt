-- ===== src/Evidence/Slices.antt =====
-- The parts of a text that a slice cuts (core/evidence/document.go).
use stacks.Base.{
  ℕ, zero, suc, ◌+◌, ◌-◌, ◌≤◌, ◌<◌, ◌≡◌, refl, sym, ap, ◌∙◌, true, not, ◌||◌, [], ◌∷◌, ◌++◌, Text,
  is_empty, arith, length, ◌==◌,
}
use stacks.Encodings.Boundaries.{starts}
use stacks.Evidence.Spans.{take, drop, slice, utf8_byte_boundary, continues_at}

pub take-drop : (n : ℕ) (text : Text) → take n text ++ drop n text ≡ text
unfolding take drop
take-drop zero text = refl
take-drop (suc n) [] = refl
take-drop (suc n) (b ∷ text) = ap (◌∷◌ b) (take-drop n text)

pub length-take : (n : ℕ) (text : Text) → n ≤ length text → length (take n text) ≡ n
unfolding take
length-take zero text h = refl
length-take (suc n) [] h = absurd (omega arith)
length-take (suc n) (b ∷ text) h = ap suc (length-take n text (omega arith))

pub length-drop : (n : ℕ) (text : Text) → length (drop n text) ≡ length text - n
unfolding drop
length-drop zero text = omega arith
length-drop (suc n) [] = omega arith
length-drop (suc n) (b ∷ text) = omega (arith, length-drop n text)

pub take-append : (front rest : Text) → take (length front) (front ++ rest) ≡ front
unfolding take
take-append [] rest = refl
take-append (b ∷ front) rest = ap (◌∷◌ b) (take-append front rest)

pub drop-append : (front rest : Text) → drop (length front) (front ++ rest) ≡ rest
unfolding drop
drop-append [] rest = refl
drop-append (b ∷ front) rest = drop-append front rest

pub starts-drop : (n : ℕ) (text : Text) → starts (drop n text) ≡ not (continues_at text n)
unfolding drop continues_at
starts-drop zero [] = refl
starts-drop (suc n) [] = refl
starts-drop zero (b ∷ text) = refl
starts-drop (suc n) (b ∷ text) = starts-drop n text

pub drop-length : (text : Text) → drop (length text) text ≡ []
unfolding drop
drop-length [] = refl
drop-length (b ∷ text) = drop-length text

-- A boundary within a text is its beginning or where a rune may start.
pub boundary-starts :
    (n : ℕ) (text : Text)
    → n ≤ length text
    → utf8_byte_boundary text n ≡ (n == 0 || starts (drop n text))
unfolding utf8_byte_boundary
boundary-starts n text h =
    let ends : starts (drop (length text) text) ≡ true = ap starts (drop-length text) in
    let at_end = λ (e : n ≡ length text). ap (λ k. starts (drop k text)) e in
    ground (arith, starts-drop n text, ends, at_end)

pub drop-drop : (k m n : ℕ) (text : Text) → m + k ≡ n → drop k (drop m text) ≡ drop n text
unfolding drop
drop-drop k zero n text h = ap (λ j. drop j text) (omega (arith, h))
drop-drop zero (suc m) (suc n) [] h = refl
drop-drop (suc k) (suc m) (suc n) [] h = refl
drop-drop k (suc m) zero text h = absurd (omega (arith, h))
drop-drop k (suc m) (suc n) (b ∷ text) h = drop-drop k m n text (omega (arith, h))

-- A slice is followed by what comes after its end.
pub slice-rest : (text : Text) (m n : ℕ) → m ≤ n → drop m text ≡ slice text m n ++ drop n text
slice-rest text m n h =
    sym (take-drop (n - m) (drop m text))
    ∙ ap (λ back. slice text m n ++ back) (drop-drop (n - m) m n text (omega arith))

pub length-slice : (text : Text) (m n : ℕ) → n ≤ length text → length (slice text m n) ≡ n - m
length-slice text m n h = length-take (n - m) (drop m text) (omega (arith, length-drop m text))

pub is_empty-length : (text : Text) → is_empty text ≡ (length text == 0)
is_empty-length [] = refl
is_empty-length (b ∷ text) = ground arith

pub starts-append : (s rest : Text) → 0 < length s → starts (s ++ rest) ≡ starts s
starts-append [] rest h = absurd (omega arith)
starts-append (b ∷ s) rest h = refl
