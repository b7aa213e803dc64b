-- ===== src/Base/Sorting.antt =====
-- `sort.Slice` under a total order on keys, as insertion sort. The source sorts the entries of
-- maps, whose iteration order Go leaves open: where the keys differ, every order of the input
-- gives one result, so the choice of the sorting algorithm and of that order is immaterial.
use stacks.Base.Orders.{Order, is_lt}
use stacks.Base.Tests.{if◌then◌else◌}
use mathlib.Core.Path.{◌≡◌, refl, ◌∙◌}
use mathlib.Core.List.{List, [], ◌∷◌, map, Permᴰ, Nodup, Nodup-cons, mem-cons_self}
use mathlib.Core.List.Perm
use native.Mathlib.Omega.{arith}

module _ {ℓ κ} {A : Type ℓ} {K : Type κ} ⦃o : Order K⦄ (key : A → K) where
  unfoldable pub place : A → List A → List A
  place a [] = a ∷ []
  place a (x ∷ xs) = if is_lt (o.cmp (key x) (key a)) then x ∷ place a xs else a ∷ x ∷ xs

  unfoldable pub sort_on : List A → List A
  unfolding place
  sort_on [] = []
  sort_on (x ∷ xs) = place x (sort_on xs)

  place-place :
      (a b : A) (xs : List A)
      → (key a ≡ key b → a ≡ b)
      → place a (place b xs) ≡ place b (place a xs)
  unfolding place
  place-place a b [] h = ground (arith, o.cmp_flip (key a) (key b), o.cmp_eq (key a) (key b), h)
  place-place a b (x ∷ xs) h = ground (
    arith,
    place-place a b xs h,
    o.cmp_flip (key a) (key b),
    o.cmp_eq (key a) (key b),
    h,
    o.cmp_flip (key a) (key x),
    o.cmp_flip (key b) (key x),
    o.cmp_trans (key a) (key x) (key b),
    o.cmp_trans (key b) (key x) (key a),
    o.cmp_trans (key x) (key a) (key b),
    o.cmp_trans (key x) (key b) (key a),
    o.cmp_eq (key x) (key a),
    o.cmp_eq (key x) (key b),
  )

  -- The result does not depend on the order of the input, where no two entries share a key.
  pub sort_on-Permᴰ : {xs ys : List A} → Permᴰ xs ys → Nodup (map key xs) → sort_on xs ≡ sort_on ys
  unfolding sort_on
  sort_on-Permᴰ Permᴰ.nil n = refl
  sort_on-Permᴰ (Permᴰ.cons {a = a} e p) n = cc (e, sort_on-Permᴰ p (Nodup-cons.0 n).1)
  sort_on-Permᴰ (Permᴰ.swap {a = a} {b = b} {l = l} e f) n =
      place-place a b (sort_on l) (λ s. absurd ((Nodup-cons.0 n).0 (rw s mem-cons_self)))
      ∙ cc (e, f)
  sort_on-Permᴰ (Permᴰ.trans {l₁ = l₁} {l₂ = l₂} p q) n =
      sort_on-Permᴰ p n ∙ sort_on-Permᴰ q (Perm.nodup (Perm.map key {l₁ = l₁} {l₂ = l₂} ∣ p ∣₁) n)
