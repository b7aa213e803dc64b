-- ===== src/Observation/Confidences.antt =====
-- core/observation/confidence.go. A `float64` is its IEEE 754 bit pattern (`math.Float64bits`), a
-- number below 2 ^ 64; the comparisons are those of the patterns' values.
use stacks.Base.{
  ℕ, ◌/◌, ◌%◌, ◌^◌, ◌*◌, Bool, not, ◌&&◌, ◌||◌, Text, bytes, same, text_order, Result, ok, err,
  refuse, ◌>>◌, ltb, ◌==◌, if◌then◌else◌,
}

abbrev pub Float64 : Type 0
Float64 = ℕ

pub record Confidence : Type 0 where
  pub value : Float64
  pub scale : Text

abbrev pub confidence_unit_interval : Text
confidence_unit_interval = bytes "unit_interval"

-- Neither NaN nor an infinity: the exponent is not all ones.
unfoldable pub finite : Float64 → Bool
finite value = not (value / 2 ^ 52 % 2048 == 2047)

-- `value < 0`, for a finite value: the sign bit is set and the rest is not zero.
unfoldable pub below_zero : Float64 → Bool
below_zero value = ltb (2 ^ 63) value

-- The bits of 1.0.
abbrev pub one_bits : Float64
one_bits = 1023 * 2 ^ 52

-- `value > 1`, for a finite value: the sign bit is clear and the magnitude above that of 1.
unfoldable pub above_one : Float64 → Bool
above_one value = ltb value (2 ^ 63) && ltb one_bits value

unfoldable pub in_unit_interval : Float64 → Bool
unfolding finite below_zero above_one
in_unit_interval value = not (not (finite value) || below_zero value || above_one value)

unfoldable pub new_unit_interval_confidence : Float64 → Result Confidence
new_unit_interval_confidence value = do
  refuse (not (in_unit_interval value))
      "unit-interval confidence must be finite and between 0 and 1"
  ok (record { value = value; scale = confidence_unit_interval })

unfoldable pub validate_confidence : Confidence → Result (Unit {0})
validate_confidence confidence =
    if same confidence.scale confidence_unit_interval
    then refuse (not (in_unit_interval confidence.value))
        "observation unit-interval confidence is invalid"
    else err "observation confidence scale is invalid"

-- `a == b` on finite floats: one pattern, or two zeros.
unfoldable pub float_equal : Float64 → Float64 → Bool
float_equal a b = (a == b) || ((a % 2 ^ 63 == 0) && (b % 2 ^ 63 == 0))
