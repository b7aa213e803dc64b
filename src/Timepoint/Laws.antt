-- ===== src/Timepoint/Laws.antt =====
-- What `Normalize` of core/timepoint guarantees.
use stacks.Base.{◌+◌, ◌/◌, ◌%◌, ◌^◌, ◌≤◌, ◌<◌, ◌≡◌, ◌↔◌, true, arith}
use stacks.Timepoint.{Time, zero_time, is_zero, normalize, unix_micro}

-- A normalized time is the last whole microsecond that is not after the value, and normalizing it
-- again changes nothing.
pub normalize_lem :
    (a : Time)
    → (normalize (normalize a) ≡ normalize a)
      × (normalize a % 1000 ≡ 0)
      × (normalize a ≤ a)
      × (a < normalize a + 1000)
unfolding normalize
normalize_lem a = (ground arith, ground arith, ground arith, ground arith)

-- Two times are ordered after normalization exactly as the whole microseconds that they lie in.
pub normalize_keeps_order : (a b : Time) → (normalize a ≤ normalize b) ↔ (a / 1000 ≤ b / 1000)
unfolding normalize
normalize_keeps_order a b = (λ h. ground arith, λ h. ground arith)

-- A normalized time is the zero time exactly when the value lies in the microsecond that begins
-- with it.
pub is_zero-normalize_iff :
    (a : Time) → (is_zero (normalize a) ≡ true) ↔ ((zero_time ≤ a) × (a < zero_time + 1000))
unfolding normalize
is_zero-normalize_iff a = (λ h. ground arith, λ h. ground arith)

-- The encoded microseconds determine the normalized time of two instants less than 2 ^ 64
-- microseconds apart.
pub unix_micro-injective :
    (a b : Time)
    → a / 1000 < b / 1000 + 2 ^ 64
    → b / 1000 < a / 1000 + 2 ^ 64
    → unix_micro (normalize a) ≡ unix_micro (normalize b)
    → normalize a ≡ normalize b
unfolding normalize unix_micro
unix_micro-injective a b h k e = ground arith
