-- ===== src/Identity/Bounds.antt =====
-- The quotients of the ranking as floats (core/identity/resolver.go): the unit interval, and the
-- search for their exponent.
use stacks.Base.{
  true, ◌+◌, ℕ, zero, suc, ◌*◌, ◌/◌, ◌%◌, ◌^◌, ◌≤◌, ◌<◌, ◌≡◌, ap, ◌∙◌, arith, leb, Bool-cases, inl,
  inr,
}
use native.Mathlib.Nat.{div-lt_iff_lt-mul, div-eq_of_lt-le, div-add-mod}
use stacks.Observation.Confidences.{one_bits}
use stacks.Identity.Ratios.{ratio, ratio_from, nearest}

nearest_bound : (p b : ℕ) → 0 < b → p < 2 ^ 53 * b → nearest p b ≤ 2 ^ 53
unfolding nearest
nearest_bound p b z h =
    let small : p / b < 2 ^ 53 = (div-lt_iff_lt-mul z).1 h in ground (arith, small)

nearest_whole : (b : ℕ) → 0 < b → nearest (b * 2 ^ 52) b ≡ 2 ^ 52
unfolding nearest
nearest_whole b z =
    let whole : b * 2 ^ 52 / b ≡ 2 ^ 52 = div-eq_of_lt-le b (omega arith) (omega arith) in
    let rest : b * 2 ^ 52 % b ≡ 0 =
      omega (arith, div-add-mod (b * 2 ^ 52) b, whole, ap (λ q. b * q) whole) in
    rw (whole, rest) (ground arith)

ratio_from_bound : (fuel e a b : ℕ) → 0 < b → a < 2 * b → ratio_from fuel (suc e) a b ≤ one_bits
unfolding ratio_from
ratio_from_bound zero e a b z h = omega arith
ratio_from_bound (suc fuel) e a b z h = elim (Bool-cases (leb b a)) [
  | inl t ↦ rw (t, ratio_from) (omega (arith, nearest_bound (a * 2 ^ 52) b z (omega arith)))
  | inr t ↦ rw (t, ratio_from) (ratio_from_bound fuel (suc e) (2 * a) b z (ground arith))
]

first_bound : (fuel a b : ℕ) → 0 < b → a ≤ b → ratio_from (suc fuel) 0 a b ≤ one_bits
unfolding ratio_from
first_bound fuel a b z h = elim (Bool-cases (leb b a)) [
  | inl t ↦
      let same_count : a ≡ b = ground arith in
      let whole : nearest (a * 2 ^ 52) b ≡ 2 ^ 52 =
        ap (λ c. nearest (c * 2 ^ 52) b) same_count ∙ nearest_whole b z in
      rw (t, ratio_from) (omega (arith, whole))
  | inr t ↦ rw (t, ratio_from) (ratio_from_bound fuel 0 (2 * a) b z (ground arith))
]

-- The quotient of a number by one that is not smaller, and not 0, is at most 1.
pub ratio_bound : (a b : ℕ) → 0 < b → a ≤ b → ratio a b ≤ one_bits
unfolding ratio
ratio_bound a b z h = first_bound 63 a b z h

-- The search ends where its fuel is enough for the first number to reach the second.
ratio_from_found :
    (fuel e a b : ℕ) → b ≤ a * 2 ^ fuel → e + fuel ≤ 1022 → 0 < ratio_from (suc fuel) e a b
unfolding ratio_from
ratio_from_found zero e a b reach small =
    let here : leb b a ≡ true = ground arith in rw (here, ratio_from) (grind arith)
ratio_from_found (suc fuel) e a b reach small = elim (Bool-cases (leb b a)) [
  | inl t ↦ rw (t, ratio_from) (grind arith)
  | inr f ↦
      rw (f, ratio_from)
        (ratio_from_found fuel (suc e) (2 * a) b (grind (arith, reach)) (omega (arith, small)))
]

-- The quotient of a number that is not 0 by one that is not smaller, and below `2 ^ 53`, is not 0.
pub ratio_found : (a b : ℕ) → 0 < a → a ≤ b → b < 2 ^ 53 → 0 < ratio a b
unfolding ratio
ratio_found a b positive order small =
    ratio_from_found 63 0 a b (omega (arith, positive, small)) (omega arith)
