-- ===== src/Base/Maps.antt =====
-- The maps of Go as association lists, and its sets (`map[K]struct{}`) as lists of keys, both in
-- the order of insertion. The source reads a map by key, or sorts what a range over it yields.
use stacks.Base.Orders.{Order, same, same_refl, same→eq}
use stacks.Base.Tests.{if◌then◌else◌}
use mathlib.Core.Path.{◌≡◌, refl}
use mathlib.Core.Bool.{Bool, true, false, ◌||◌}
use mathlib.Core.Option.{Option, none, some}
use mathlib.Core.List.{List, [], ◌∷◌, ◌++◌, map}
use native.Mathlib.Omega.{arith}

module _ {ℓ} {K : Type ℓ} ⦃o : Order K⦄ where
  -- `_, exists := set[k]`
  unfoldable pub member : K → List K → Bool
  member k [] = false
  member k (x ∷ xs) = same x k || member k xs

  -- `set[k] = struct{}{}`
  unfoldable pub add : K → List K → List K
  unfolding member
  add k xs = if member k xs then xs else xs ++ k ∷ []

  -- `for _, k := range ks { set[k] = struct{}{} }`
  unfoldable pub add_all : List K → List K → List K
  unfolding add
  add_all [] xs = xs
  add_all (k ∷ ks) xs = add_all ks (add k xs)

  pub member-append : (k : K) (xs ys : List K) → member k (xs ++ ys) ≡ (member k xs || member k ys)
  unfolding member
  member-append k [] ys = refl
  member-append k (x ∷ xs) ys = ground (arith, member-append k xs ys)

  pub member-add : (j k : K) (xs : List K) → member j (add k xs) ≡ (same k j || member j xs)
  unfolding add
  member-add j k xs =
      ground
        (arith, member-append j xs (k ∷ []), same→eq k j, (λ (e : k ≡ j). member_cast k j xs e))
    where
      member_cast : (k j : K) (xs : List K) → k ≡ j → member k xs ≡ member j xs
      member_cast k j xs e = rw e

  pub member-add_all :
      (j : K) (ks xs : List K) → member j (add_all ks xs) ≡ (member j ks || member j xs)
  unfolding add_all member
  member-add_all j [] xs = refl
  member-add_all j (k ∷ ks) xs = ground (arith, member-add_all j ks (add k xs), member-add j k xs)

module _ {ℓ κ} {K : Type ℓ} {V : Type κ} ⦃o : Order K⦄ where
  abbrev pub keys : List (K × V) → List K
  keys = map (λ e. e.0)

  -- `value, exists := m[k]`
  unfoldable pub find : K → List (K × V) → Option V
  find k [] = none
  find k ((j, v) ∷ m) = if same j k then some v else find k m

  -- `m[k] = v`
  unfoldable pub store : K → V → List (K × V) → List (K × V)
  store k v [] = (k, v) ∷ []
  store k v ((j, w) ∷ m) = if same j k then (j, v) ∷ m else (j, w) ∷ store k v m

  pub find-store :
      (j k : K) (v : V) (m : List (K × V))
      → find j (store k v m) ≡ (if same k j then some v else find j m)
  unfolding find store
  find-store j k v [] = refl
  find-store j k v ((i, w) ∷ m) =
      ground (arith, find-store j k v m, same→eq i k, same→eq k j, same→eq i j, same_refl j)

-- The value that a lookup finds, or the one that the source makes for a missing key.
abbrev pub or_else {ℓ} : {A : Type ℓ} → Option A → A → A
or_else none a = a
or_else (some b) a = b

abbrev pub is_some {ℓ} : {A : Type ℓ} → Option A → Bool
is_some none = false
is_some (some a) = true
