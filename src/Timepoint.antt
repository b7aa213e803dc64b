-- ===== src/Timepoint.antt =====
-- core/timepoint: the canonical representation of durable times.
--
-- An instant is the number of nanoseconds since the earliest instant that a `time.Time` can hold,
-- 2 ^ 63 seconds before the zero time, so every instant of Go is a number and `zero_time` is a
-- multiple of every unit up to the second. Locations and monotonic readings are not modelled:
-- `Normalize` erases both, and no code here compares a time that has not been through it.
use stacks.Base.{ℕ, ◌+◌, ◌-◌, ◌*◌, ◌/◌, ◌%◌, ◌^◌, Bool, ltb, ◌==◌, if◌then◌else◌}
pub mod Laws

abbrev pub Time : Type 0
Time = ℕ

-- The instant 0001-01-01 00:00:00 UTC, the zero value of `time.Time`.
abbrev pub zero_time : Time
zero_time = 2 ^ 63 * 10 ^ 9

-- `time.Microsecond`, in nanoseconds.
abbrev pub precision : ℕ
precision = 1000

-- `value.IsZero()`
unfoldable pub is_zero : Time → Bool
is_zero value = value == zero_time

-- `a.Before(b)`; `a.After(b)` is `before b a`, and `a.Equal(b)` is `a == b`.
abbrev pub before : Time → Time → Bool
before a b = ltb a b

-- `Truncate` rounds down to a multiple of the unit since the zero time.
unfoldable pub normalize : Time → Time
unfolding is_zero
normalize value = if is_zero value then value else value - value % precision

-- 1970-01-01 in microseconds since the earliest instant.
abbrev unix_epoch : ℕ
unix_epoch = (2 ^ 63 + 62135596800) * 10 ^ 6

-- `uint64(value.UnixMicro())`, which wraps as `int64` does.
unfoldable pub unix_micro : Time → ℕ
unix_micro value = (value / 1000 + (2 ^ 64 * 10 ^ 6 - unix_epoch)) % 2 ^ 64
