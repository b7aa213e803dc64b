-- ===== src/Base/Distinct.antt =====
-- Lists without repetition, and the keys of a map, which are one: a sort by key then has one result
-- for every order of the entries.
use stacks.Base.Orders.{Order, same, same_refl, same→eq}
use stacks.Base.Tests.{Bool-cases}
use stacks.Base.Maps.{keys, member, add, member-add, is_some}
use stacks.Base.Entries.{IsMap, is_some-find}
use mathlib.Core.Path.{◌≡◌, refl, ap, sym, ◌∙◌}
use stacks.Base.Lists.{All}
use mathlib.Core.Logic.{inl, inr}
use mathlib.Core.HLevel.{⊥_prop}
use mathlib.Core.Logic.Or
use mathlib.Core.Bool.{Bool, true, false, not, ◌&&◌, ◌||◌}
use mathlib.Core.List.{
  List, [], ◌∷◌, map, Mem, Permᴰ, Nodup, Nodup-nil, Nodup-cons, mem-cons_self, mem-cons_of_mem,
  not-mem-nil, eq-or-mem_of_mem-cons,
}
use native.Mathlib.Omega.{arith}

module _ {ℓ} {K : Type ℓ} ⦃o : Order K⦄ where
  absent-Mem : (k : K) (xs : List K) → member k xs ≡ false → ¬ (Mem k xs)
  unfolding member
  absent-Mem k [] h m = not-mem-nil m
  absent-Mem k (x ∷ xs) h m =
      Or.elim ⊥_prop (eq-or-mem_of_mem-cons m)
        (λ e. ground (arith, same_refl k, ap (λ y. same y k) e))
        (λ later. absent-Mem k xs (ground arith) later)

  present-Mem : (k : K) (xs : List K) → ¬ (Mem k xs) → member k xs ≡ false
  unfolding member
  present-Mem k [] h = refl
  present-Mem k (x ∷ xs) h = elim (Bool-cases (same x k)) [
    | inl e ↦ absurd (h (rw (same→eq x k e) mem-cons_self))
    | inr e ↦ rw e (present-Mem k xs (λ m. h (mem-cons_of_mem x m)))
  ]

  -- The elements are apart from each other and from those of `seen`.
  abbrev pub all_new : List K → List K → Bool
  all_new [] seen = true
  all_new (x ∷ xs) seen = let rest = all_new xs (x ∷ seen) in not (member x seen) && rest

  pub all_new_agree :
      (xs seen older : List K)
      → ((y : K) → member y seen ≡ member y older)
      → all_new xs seen ≡ all_new xs older
  unfolding member
  all_new_agree [] seen older h = refl
  all_new_agree (x ∷ xs) seen older h = rw (h x) (
      ap (λ b. not (member x older) && b)
        (all_new_agree xs (x ∷ seen) (x ∷ older) (λ y. ap (λ b. same x y || b) (h y))))

  pub add_agrees : (x : K) (seen : List K) (y : K) → member y (add x seen) ≡ member y (x ∷ seen)
  unfolding member
  add_agrees x seen y = member-add y x seen

  pub all_new_apart :
      (xs seen : List K) (y : K)
      → all_new xs seen ≡ true
      → member y seen ≡ true
      → member y xs ≡ false
  unfolding member
  all_new_apart [] seen y h m = refl
  all_new_apart (x ∷ xs) seen y h m = elim (Bool-cases (same x y)) [
    | inl e ↦
        let same_member : member x seen ≡ member y seen = ap (λ z. member z seen) (same→eq x y e) in
        ground (arith)
    | inr e ↦ rw e (all_new_apart xs (x ∷ seen) y (ground arith) (rw e m))
  ]

  all_new-Nodup_from : (xs seen : List K) → all_new xs seen ≡ true → Nodup xs
  unfolding member
  all_new-Nodup_from [] seen h = Nodup-nil
  all_new-Nodup_from (x ∷ xs) seen h =
      let rest : all_new xs (x ∷ seen) ≡ true = ground arith in
      Nodup-cons.1 (
        absent-Mem x xs (all_new_apart xs (x ∷ seen) x rest (rw same_refl)),
        all_new-Nodup_from xs (x ∷ seen) rest,
      )

  pub all_new-Nodup : (xs : List K) → all_new xs [] ≡ true → Nodup xs
  all_new-Nodup xs h = all_new-Nodup_from xs [] h

  Nodup-all_new_from :
      (xs seen : List K) → Nodup xs → All (λ x. member x seen ≡ false) xs → all_new xs seen ≡ true
  unfolding member
  Nodup-all_new_from [] seen n h = refl
  Nodup-all_new_from (x ∷ xs) seen n h = rw (h.0) (
      Nodup-all_new_from xs (x ∷ seen) (Nodup-cons.0 n).1
        (still xs (present-Mem x xs (Nodup-cons.0 n).0) h.1))
    where
      still :
          (ys : List K)
          → member x ys ≡ false
          → All (λ y. member y seen ≡ false) ys
          → All (λ y. member y (x ∷ seen) ≡ false) ys
      still [] a b = tt
      still (y ∷ ys) a b =
          (ground (arith, b.0, same→eq x y, same_refl y), still ys (ground arith) b.1)

  pub Nodup-all_new : (xs : List K) → Nodup xs → all_new xs [] ≡ true
  unfolding member
  Nodup-all_new xs n = Nodup-all_new_from xs [] n (nothing xs)
    where
      nothing : (ys : List K) → All (λ y. false ≡ false) ys
      nothing [] = tt
      nothing (y ∷ ys) = (refl, nothing ys)

module _ {ℓ κ} {K : Type ℓ} {V : Type κ} ⦃o : Order K⦄ where
  pub Nodup-keys : (m : List (K × V)) → IsMap m → Nodup (keys m)
  Nodup-keys [] h = Nodup-nil
  Nodup-keys (e ∷ m) h =
      Nodup-cons.1
        (absent-Mem e.0 (keys m) (sym (is_some-find e.0 m) ∙ ap is_some h.0), Nodup-keys m h.1)

pub Permᴰ-map {ℓ κ} :
    {A : Type ℓ} {B : Type κ} (f : A → B) {xs ys : List A}
    → Permᴰ xs ys
    → Permᴰ (map f xs) (map f ys)
Permᴰ-map f Permᴰ.nil = Permᴰ.nil
Permᴰ-map f (Permᴰ.cons e p) = Permᴰ.cons (ap f e) (Permᴰ-map f p)
Permᴰ-map f (Permᴰ.swap e h) = Permᴰ.swap (ap f e) (ap f h)
Permᴰ-map f (Permᴰ.trans p q) = Permᴰ.trans (Permᴰ-map f p) (Permᴰ-map f q)
