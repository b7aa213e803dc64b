-- ===== src/Base/Orders.antt =====
-- Total orders that are given by a three-way comparison, as the comparisons of the source are.
use Prim.Native.Nat.{ℕ, compare, Ordering}
use mathlib.Core.Path.{◌≡◌, refl}
use mathlib.Core.Logic.{◌↔◌}
use mathlib.Core.Bool.{Bool, true, false}
use mathlib.Core.List.{List, [], ◌∷◌}
use native.Mathlib.Omega.{arith}

abbrev pub flip : Ordering → Ordering
flip Ordering.lt = Ordering.gt
flip Ordering.eq = Ordering.eq
flip Ordering.gt = Ordering.lt

-- The second comparison decides where the first finds no difference.
abbrev pub then_compare : Ordering → Ordering → Ordering
then_compare Ordering.lt o = Ordering.lt
then_compare Ordering.eq o = o
then_compare Ordering.gt o = Ordering.gt

abbrev pub is_lt : Ordering → Bool
is_lt o = elim o [ Ordering.lt ↦ true | _ ↦ false ]

abbrev pub is_eq : Ordering → Bool
is_eq o = elim o [ Ordering.eq ↦ true | _ ↦ false ]

pub record Order {ℓ} (A : Type ℓ) : Type ℓ where
  pub cmp : A → A → Ordering
  pub cmp_eq : (a b : A) → cmp a b ≡ Ordering.eq → a ≡ b
  pub cmp_refl : (a : A) → cmp a a ≡ Ordering.eq
  pub cmp_flip : (a b : A) → cmp b a ≡ flip (cmp a b)
  pub cmp_trans :
      (a b c : A) → cmp a b ≡ Ordering.lt → cmp b c ≡ Ordering.lt → cmp a c ≡ Ordering.lt

module _ {ℓ} {A : Type ℓ} ⦃o : Order A⦄ where
  abbrev pub cmp : A → A → Ordering
  cmp = o.cmp

  abbrev pub same : A → A → Bool
  same a b = is_eq (o.cmp a b)

  pub same_refl : (a : A) → same a a ≡ true
  same_refl a = rw (o.cmp_refl a)

  pub same→eq : (a b : A) → same a b ≡ true → a ≡ b
  same→eq a b h = o.cmp_eq a b (ground arith)

  pub same_iff : (a b : A) → (same a b ≡ true) ↔ (a ≡ b)
  same_iff a b = (same→eq a b, λ e. rw e (same_refl b))

pub nat-eq : (a b : ℕ) → compare a b ≡ Ordering.eq → a ≡ b
nat-eq a b h = ground arith

pub nat_refl : (a : ℕ) → compare a a ≡ Ordering.eq
nat_refl a = ground arith

pub nat-flip : (a b : ℕ) → compare b a ≡ flip (compare a b)
nat-flip a b = ground arith

pub nat_trans :
    (a b c : ℕ) → compare a b ≡ Ordering.lt → compare b c ≡ Ordering.lt → compare a c ≡ Ordering.lt
nat_trans a b c p q = ground arith

instance abbrev pub nat_order : Order ℕ
nat_order = record {
  cmp = compare;
  cmp_eq = nat-eq;
  cmp_refl = nat_refl;
  cmp_flip = nat-flip;
  cmp_trans = nat_trans;
}

-- Pairs, by the first component and then by the second.
module _ {ℓ κ} {A : Type ℓ} {B : Type κ} ⦃o : Order A⦄ ⦃p : Order B⦄ where
  unfoldable pub pair_cmp : A × B → A × B → Ordering
  pair_cmp x y = then_compare (o.cmp x.0 y.0) (p.cmp x.1 y.1)

  pub pair-eq : (x y : A × B) → pair_cmp x y ≡ Ordering.eq → x ≡ y
  unfolding pair_cmp
  pair-eq x y h = ground (arith, o.cmp_eq x.0 y.0, p.cmp_eq x.1 y.1)

  pub pair_refl : (x : A × B) → pair_cmp x x ≡ Ordering.eq
  unfolding pair_cmp
  pair_refl x = rw (o.cmp_refl x.0, p.cmp_refl x.1)

  pub pair-flip : (x y : A × B) → pair_cmp y x ≡ flip (pair_cmp x y)
  unfolding pair_cmp
  pair-flip x y = ground (arith, o.cmp_flip x.0 y.0, p.cmp_flip x.1 y.1)

  pub pair_trans :
      (x y z : A × B)
      → pair_cmp x y ≡ Ordering.lt
      → pair_cmp y z ≡ Ordering.lt
      → pair_cmp x z ≡ Ordering.lt
  unfolding pair_cmp
  pair_trans x y z h k =
      ground (
        arith,
        o.cmp_trans x.0 y.0 z.0,
        o.cmp_eq x.0 y.0,
        o.cmp_eq y.0 z.0,
        p.cmp_trans x.1 y.1 z.1,
      )

  instance abbrev pub pair_order : Order (A × B)
  pair_order = record {
    cmp = pair_cmp;
    cmp_eq = pair-eq;
    cmp_refl = pair_refl;
    cmp_flip = pair-flip;
    cmp_trans = pair_trans;
  }

-- Lists, by the first position at which they differ; a proper prefix comes first.
module _ {ℓ} {A : Type ℓ} ⦃o : Order A⦄ where
  unfoldable pub list_cmp : List A → List A → Ordering
  list_cmp [] [] = Ordering.eq
  list_cmp [] (y ∷ ys) = Ordering.lt
  list_cmp (x ∷ xs) [] = Ordering.gt
  list_cmp (x ∷ xs) (y ∷ ys) = then_compare (o.cmp x y) (list_cmp xs ys)

  pub list-eq : (x y : List A) → list_cmp x y ≡ Ordering.eq → x ≡ y
  unfolding list_cmp
  list-eq [] [] h = refl
  list-eq [] (y ∷ ys) h = cc
  list-eq (x ∷ xs) [] h = cc
  list-eq (x ∷ xs) (y ∷ ys) h = ground (arith, o.cmp_eq x y, list-eq xs ys)

  pub list_refl : (x : List A) → list_cmp x x ≡ Ordering.eq
  unfolding list_cmp
  list_refl [] = refl
  list_refl (x ∷ xs) = rw (o.cmp_refl x, list_refl xs)

  pub list-flip : (x y : List A) → list_cmp y x ≡ flip (list_cmp x y)
  unfolding list_cmp
  list-flip [] [] = refl
  list-flip [] (y ∷ ys) = refl
  list-flip (x ∷ xs) [] = refl
  list-flip (x ∷ xs) (y ∷ ys) = ground (arith, o.cmp_flip x y, list-flip xs ys)

  pub list_trans :
      (x y z : List A)
      → list_cmp x y ≡ Ordering.lt
      → list_cmp y z ≡ Ordering.lt
      → list_cmp x z ≡ Ordering.lt
  unfolding list_cmp
  list_trans [] [] z h k = cc
  list_trans [] (y ∷ ys) [] h k = cc
  list_trans [] (y ∷ ys) (z ∷ zs) h k = refl
  list_trans (x ∷ xs) [] z h k = cc
  list_trans (x ∷ xs) (y ∷ ys) [] h k = cc
  list_trans (x ∷ xs) (y ∷ ys) (z ∷ zs) h k =
      ground (arith, o.cmp_trans x y z, o.cmp_eq x y, o.cmp_eq y z, list_trans xs ys zs)

  instance abbrev pub list_order : Order (List A)
  list_order = record {
    cmp = list_cmp;
    cmp_eq = list-eq;
    cmp_refl = list_refl;
    cmp_flip = list-flip;
    cmp_trans = list_trans;
  }
