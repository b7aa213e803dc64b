-- ===== src/Base/Lists.antt =====
-- Lists with native lengths, and predicates on lists by recursion.
use Prim.Native.Nat.{ℕ, suc, ◌+◌}
use mathlib.Core.Path.{◌≡◌, refl}
use mathlib.Core.Bool.{Bool, true, false, ◌||◌, ◌&&◌}
use mathlib.Core.List.{List, [], ◌∷◌, ◌++◌}
use native.Mathlib.Omega.{arith}

module _ {ℓ} {A : Type ℓ} where
  abbrev pub length : List A → ℕ
  length [] = 0
  length (x ∷ xs) = suc (length xs)

  pub length-append : (xs ys : List A) → length (xs ++ ys) ≡ length xs + length ys
  length-append [] ys = omega arith
  length-append (x ∷ xs) ys = omega (arith, length-append xs ys)

  -- Two texts of one length in front of two rests are equal where the whole is.
  pub append_inj :
      (xs ys us vs : List A) → length xs ≡ length ys → xs ++ us ≡ ys ++ vs → (xs ≡ ys) × (us ≡ vs)
  append_inj [] [] us vs l e = (refl, e)
  append_inj [] (y ∷ ys) us vs l e = absurd (omega arith)
  append_inj (x ∷ xs) [] us vs l e = absurd (omega arith)
  append_inj (x ∷ xs) (y ∷ ys) us vs l e =
      let (p, q) = append_inj xs ys us vs (omega arith) (cc) in (cc, q)

  abbrev pub All {κ} : (A → Type κ) → List A → Type κ
  All P [] = Unit
  All P (x ∷ xs) = P x × All P xs

  unfoldable pub any : (A → Bool) → List A → Bool
  any p [] = false
  any p (x ∷ xs) = p x || any p xs

  unfoldable pub all : (A → Bool) → List A → Bool
  all p [] = true
  all p (x ∷ xs) = p x && all p xs

  pub any-append : (p : A → Bool) (xs ys : List A) → any p (xs ++ ys) ≡ (any p xs || any p ys)
  unfolding any
  any-append p [] ys = refl
  any-append p (x ∷ xs) ys = ground (arith, any-append p xs ys)

module _ {ℓ} {A : Type ℓ} where
  any-weaken :
      (y : A) (xs zs : List A)
      → All (λ x. (p : A → Bool) → p x ≡ true → any p xs ≡ true) zs
      → All (λ x. (p : A → Bool) → p x ≡ true → any p (y ∷ xs) ≡ true) zs
  unfolding any
  any-weaken y xs [] h = tt
  any-weaken y xs (z ∷ zs) h = ((λ p e. ground (arith, h.0 p e)), any-weaken y xs zs h.1)

  -- A test that an element passes, some element passes.
  pub All-any : (xs : List A) → All (λ x. (p : A → Bool) → p x ≡ true → any p xs ≡ true) xs
  unfolding any
  All-any [] = tt
  All-any (x ∷ xs) = ((λ p e. rw e), any-weaken x xs xs (All-any xs))

  pub all-member : (p : A → Bool) (xs : List A) → all p xs ≡ true → All (λ x. p x ≡ true) xs
  unfolding all
  all-member p [] h = tt
  all-member p (x ∷ xs) h = (ground arith, all-member p xs (ground arith))
