-- ===== src/Identity/Ratios.antt =====
-- The quotient of two counts as a `float64` (`float64(a) / float64(b)` in
-- core/identity/resolver.go), by its bit pattern, for 0 < a ≤ b and b below 2 ^ 53, where the
-- conversions are exact. The patterns of such floats are ordered as their values.
use stacks.Base.{
  ℕ, zero, suc, ◌+◌, ◌-◌, ◌*◌, ◌/◌, ◌%◌, ◌^◌, true, false, ◌||◌, ◌&&◌, leb, ltb, ◌==◌,
  if◌then◌else◌,
}
use stacks.Observation.Confidences.{Float64}

-- `p / q` to the nearest natural number, to the even one of two.
unfoldable pub nearest : ℕ → ℕ → ℕ
nearest p q =
    if ltb q (2 * (p % q)) || (2 * (p % q) == q && p / q % 2 == 1) then p / q + 1 else p / q

-- `a * 2 ^ e` is tried for growing `e` until it reaches `b`; sixty-four doublings are enough for
-- the counts of a list.
unfoldable pub ratio_from : ℕ → ℕ → ℕ → ℕ → Float64
unfolding nearest
ratio_from zero e a b = 0
ratio_from (suc fuel) e a b = elim (leb b a) [
  | true ↦ (1023 - e) * 2 ^ 52 + (nearest (a * 2 ^ 52) b - 2 ^ 52)
  | false ↦ ratio_from fuel (suc e) (2 * a) b
]

unfoldable pub ratio : ℕ → ℕ → Float64
ratio a b = ratio_from 64 0 a b
