-- ===== src/Encodings/Ints.antt =====
-- The type `int` of Go, and its conversion to `uint64`.
use stacks.Base.{ℕ, ◌-◌, ◌%◌, ◌^◌, Bool, true, false, ltb, ◌==◌}

-- `pos n` is n, and `negsuc n` is - n - 1.
pub data ℤ : Type 0 where
  pos : ℕ → ℤ
  negsuc : ℕ → ℤ

-- `value < 0`
abbrev pub negative : ℤ → Bool
negative (pos n) = false
negative (negsuc n) = true

-- `uint64(value)`: two's complement.
abbrev pub to_uint64 : ℤ → ℕ
to_uint64 (pos n) = n % 2 ^ 64
to_uint64 (negsuc n) = 2 ^ 64 - 1 - n % 2 ^ 64

-- `a < b`; `a > b` is `less b a`.
abbrev pub less : ℤ → ℤ → Bool
less (pos m) (pos n) = ltb m n
less (pos m) (negsuc n) = false
less (negsuc m) (pos n) = true
less (negsuc m) (negsuc n) = ltb n m

-- `value <= 0`
abbrev pub not_positive : ℤ → Bool
not_positive (pos n) = n == 0
not_positive (negsuc n) = true

-- `value != 0`
abbrev pub not_zero : ℤ → Bool
not_zero (pos n) = ltb 0 n
not_zero (negsuc n) = true
