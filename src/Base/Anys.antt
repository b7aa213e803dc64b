-- ===== src/Base/Anys.antt =====
-- `any` over lists that are mapped, sorted or entries of a map.
use stacks.Base.Orders.{Order, same, same→eq}
use stacks.Base.Tests.{Bool-cases}
use stacks.Base.Maps.{find}
use stacks.Base.Lists.{All, any}
use stacks.Base.Sorting.{place, sort_on}
use stacks.Base.Entries.{IsMap}
use mathlib.Core.Path.{◌≡◌, refl, ap, sym, ◌∙◌}
use mathlib.Core.Logic.{inl, inr}
use mathlib.Core.Bool.{Bool, false, ◌||◌, ◌&&◌}
use mathlib.Core.Option.{Option, none, some}
use mathlib.Core.List.{List, [], ◌∷◌, map}
use native.Mathlib.Omega.{arith}

pub any-same {ℓ} :
    {A : Type ℓ} (p q : A → Bool) (xs : List A) → All (λ x. p x ≡ q x) xs → any p xs ≡ any q xs
unfolding any
any-same p q [] h = refl
any-same p q (x ∷ xs) h = rw (h.0, any-same p q xs h.1)

pub any-map {ℓ κ} :
    {A : Type ℓ} {B : Type κ} (p : B → Bool) (f : A → B) (xs : List A)
    → any p (map f xs) ≡ any (λ x. p (f x)) xs
unfolding any
any-map p f [] = refl
any-map p f (x ∷ xs) = rw (any-map p f xs)

module _ {ℓ κ} {A : Type ℓ} {K : Type κ} ⦃o : Order K⦄ (key : A → K) (p : A → Bool) where
  any-place : (a : A) (xs : List A) → any p (place key a xs) ≡ (p a || any p xs)
  unfolding any place
  any-place a [] = refl
  any-place a (x ∷ xs) = ground (arith, any-place a xs)

  pub any-sort_on : (xs : List A) → any p (sort_on key xs) ≡ any p xs
  unfolding any sort_on
  any-sort_on [] = refl
  any-sort_on (x ∷ xs) = ground (arith, any-place x (sort_on key xs), any-sort_on xs)

abbrev pub found {κ} : {V : Type κ} → (V → Bool) → Option V → Bool
found p none = false
found p (some v) = p v

module _ {ℓ κ} {K : Type ℓ} {V : Type κ} ⦃o : Order K⦄ (p : V → Bool) where
  any-absent :
      (k : K) (m : List (K × V)) → find k m ≡ none → any (λ e. same e.0 k && p e.1) m ≡ false
  unfolding any find
  any-absent k [] h = refl
  any-absent k ((j, v) ∷ m) h = ground (arith, any-absent k m)

  -- A map has one entry at most for a key.
  pub any-find :
      (k : K) (m : List (K × V)) → IsMap m → any (λ e. same e.0 k && p e.1) m ≡ found p (find k m)
  unfolding any find
  any-find k [] h = refl
  any-find k ((j, v) ∷ m) h = elim (Bool-cases (same j k)) [
    | inl e ↦ rw e (ground (arith, any-absent k m (ap (λ i. find i m) (sym (same→eq j k e)) ∙ h.0)))
    | inr e ↦ rw e (any-find k m h.1)
  ]
