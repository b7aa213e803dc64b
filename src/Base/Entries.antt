-- ===== src/Base/Entries.antt =====
-- Maps whose keys are distinct, as every map of Go is: each entry is what a lookup finds.
use stacks.Base.Orders.{Order, same, same_refl, same→eq}
use stacks.Base.Tests.{Bool-cases}
use stacks.Base.Maps.{find, store, find-store, member, keys, is_some}
use stacks.Base.Lists.{All}
use stacks.Base.Sorting.{place, sort_on}
use mathlib.Core.Path.{◌≡◌, refl, sym, ap, ◌∙◌, subst₂}
use mathlib.Core.Logic.{inl, inr}
use mathlib.Core.Bool.{◌||◌}
use mathlib.Core.Option.{none, some}
use mathlib.Core.List.{List, [], ◌∷◌, ◌++◌, map}
use native.Mathlib.Omega.{arith}

module _ {ℓ κ μ} {A : Type ℓ} (P : A → Type κ) (Q : A → Type μ) where
  pub All-map_to : (xs : List A) → ((x : A) → P x → Q x) → All P xs → All Q xs
  All-map_to [] f h = tt
  All-map_to (x ∷ xs) f h = (f x h.0, All-map_to xs f h.1)

module _ {ℓ κ} {A : Type ℓ} (P : A → Type κ) where
  pub All-append : (xs ys : List A) → All P xs → All P ys → All P (xs ++ ys)
  All-append [] ys h k = k
  All-append (x ∷ xs) ys h k = (h.0, All-append xs ys h.1 k)

module _ {ℓ κ μ} {A : Type ℓ} {B : Type κ} (P : B → Type μ) where
  pub All-map : (f : A → B) (xs : List A) → All (λ x. P (f x)) xs → All P (map f xs)
  All-map f [] h = tt
  All-map f (x ∷ xs) h = (h.0, All-map f xs h.1)

module _ {ℓ κ μ} {A : Type ℓ} {K : Type κ} ⦃o : Order K⦄ (P : A → Type μ) (key : A → K) where
  All-place : (a : A) (xs : List A) → P a → All P xs → All P (place key a xs)
  unfolding place
  All-place a [] p h = (p, tt)
  All-place a (x ∷ xs) p h = ground (arith, All-place a xs p h.1)

  -- Sorting keeps what holds of every element.
  pub All-sort_on : (xs : List A) → All P xs → All P (sort_on key xs)
  unfolding sort_on
  All-sort_on [] h = tt
  All-sort_on (x ∷ xs) h = All-place x (sort_on key xs) h.0 (All-sort_on xs h.1)

module _ {ℓ κ} {K : Type ℓ} {V : Type κ} ⦃o : Order K⦄ where
  abbrev pub IsMap : List (K × V) → Type κ
  IsMap [] = Unit
  IsMap (e ∷ m) = (find e.0 m ≡ none) × IsMap m

  pub store-IsMap : (k : K) (v : V) (m : List (K × V)) → IsMap m → IsMap (store k v m)
  unfolding store find
  store-IsMap k v [] h = (refl, tt)
  store-IsMap k v ((j, w) ∷ m) h = elim (Bool-cases (same j k)) [
    | inl e ↦ rw e h
    | inr e ↦
        rw e (ground (arith, find-store j k v m, same→eq k j, same_refl j), store-IsMap k v m h.1)
  ]

  abbrev Found : List (K × V) → K × V → Type κ
  Found m e = find e.0 m ≡ some e.1

  -- An entry in front of a map hides none of the map's own.
  Found-cons :
      (e : K × V) (m n : List (K × V)) → find e.0 m ≡ none → All (Found m) n → All (Found (e ∷ m)) n
  unfolding find
  Found-cons e m [] h k = tt
  Found-cons e m (f ∷ n) h k =
      (ground (arith, k.0, same→eq e.0 f.0, same_refl f.0), Found-cons e m n h k.1)

  pub IsMap-Found : (m : List (K × V)) → IsMap m → All (λ e. find e.0 m ≡ some e.1) m
  unfolding find
  IsMap-Found [] h = tt
  IsMap-Found (e ∷ m) h = (rw same_refl, Found-cons e m m h.0 (IsMap-Found m h.1))

module _ {ℓ κ μ} {K : Type ℓ} {V : Type κ} ⦃o : Order K⦄ (P : K → V → Type μ) where
  -- A lookup finds what holds of every entry.
  pub All-find :
      (k : K) (v : V) (m : List (K × V)) → All (λ e. P e.0 e.1) m → find k m ≡ some v → P k v
  unfolding find
  All-find k v [] h f = cc
  All-find k v ((j, w) ∷ m) h f = elim (Bool-cases (same j k)) [
    | inl e ↦
        let here : some w ≡ some v = rw (e, find) at f in
        let here' : w ≡ v = cc in subst₂ P (same→eq j k e) here' h.0
    | inr e ↦ All-find k v m h.1 (rw (e, find) at f)
  ]

  pub All-store :
      (k : K) (v : V) (m : List (K × V))
      → P k v
      → All (λ e. P e.0 e.1) m
      → All (λ e. P e.0 e.1) (store k v m)
  unfolding store
  All-store k v [] p h = (p, tt)
  All-store k v ((j, w) ∷ m) p h = elim (Bool-cases (same j k)) [
    | inl e ↦ rw e (rw (same→eq j k e) p, h.1)
    | inr e ↦ rw e (h.0, All-store k v m p h.1)
  ]

module _ {ℓ κ} {K : Type ℓ} {V : Type κ} ⦃o : Order K⦄ where
  pub is_some-find : (k : K) (m : List (K × V)) → is_some (find k m) ≡ member k (keys m)
  unfolding find member
  is_some-find k [] = refl
  is_some-find k ((j, w) ∷ m) = ground (arith, is_some-find k m)

module _ {ℓ κ μ} {A : Type ℓ} {K : Type κ} {J : Type μ} ⦃o : Order K⦄ ⦃p : Order J⦄ (key : A → K)
    (name : A → J) where
  member-place :
      (j : J) (a : A) (xs : List A)
      → member j (map name (place key a xs)) ≡ (same (name a) j || member j (map name xs))
  unfolding place member
  member-place j a [] = refl
  member-place j a (x ∷ xs) = ground (arith, member-place j a xs)

  -- Sorting neither adds nor drops an element.
  pub member-sort_on :
      (j : J) (xs : List A) → member j (map name (sort_on key xs)) ≡ member j (map name xs)
  unfolding sort_on member
  member-sort_on j [] = refl
  member-sort_on j (x ∷ xs) = ground (arith, member-place j x (sort_on key xs), member-sort_on j xs)

module _ {ℓ κ} {A : Type ℓ} {K : Type κ} ⦃o : Order K⦄ ⦃p : Order A⦄ (key : A → K) where
  map_same : (xs : List A) → map (λ x. x) xs ≡ xs
  map_same [] = refl
  map_same (x ∷ xs) = ap (◌∷◌ x) (map_same xs)

  pub member-sort_on_self : (a : A) (xs : List A) → member a (sort_on key xs) ≡ member a xs
  member-sort_on_self a xs =
      ap (member a) (sym (map_same (sort_on key xs)))
      ∙ member-sort_on key (λ x. x) a xs
      ∙ ap (member a) (map_same xs)
