-- ===== src/Observation/Extents.antt =====
-- core/observation/time.go. A `TemporalExtent` has private fields, so its values are those of its
-- constructor functions; an open bound of an interval is `none`.
use stacks.Base.{ℕ, not, ◌||◌, Option, none, some, Result, ok, refuse, ◌>>◌}
use stacks.Timepoint.{Time, is_zero, normalize, before}

pub data TemporalExtent : Type 0 where
  unknown : TemporalExtent
  instant_at : Time → TemporalExtent
  interval : (start end : Option Time) → TemporalExtent
  window : (start end : Time) → TemporalExtent

abbrev pub unknown_time : TemporalExtent
unknown_time = unknown

unfoldable pub at_time : Time → Result TemporalExtent
at_time instant = do
  refuse (is_zero instant) "valid instant is required"
  ok (instant_at (normalize instant))

unfoldable pub during : Time → Time → Result TemporalExtent
during start end = do
  refuse (is_zero start || is_zero end) "valid interval bounds are required"
  let start' = normalize start
  let end' = normalize end
  refuse (not (before start' end')) "valid interval end must be after start"
  ok (interval (some start') (some end'))

unfoldable pub since : Time → Result TemporalExtent
since start = do
  refuse (is_zero start) "valid interval start is required"
  ok (interval (some (normalize start)) none)

unfoldable pub until : Time → Result TemporalExtent
until end = do
  refuse (is_zero end) "valid interval end is required"
  ok (interval none (some (normalize end)))

unfoldable pub within : Time → Time → Result TemporalExtent
within start end = do
  refuse (is_zero start || is_zero end) "valid time window bounds are required"
  let start' = normalize start
  let end' = normalize end
  refuse (not (before start' end')) "valid time window end must be after start"
  ok (window start' end')

-- `extent.Kind()`, with the values of `TemporalKind`.
unfoldable pub extent_kind : TemporalExtent → ℕ
extent_kind unknown = 0
extent_kind (instant_at t) = 1
extent_kind (interval s e) = 2
extent_kind (window s e) = 3

-- `extent.Instant()`
unfoldable pub instant_of : TemporalExtent → Option Time
instant_of (instant_at t) = some t
instant_of _ = none

-- `extent.Bounds()`: `start, hasStart` and `end, hasEnd`.
unfoldable pub bounds : TemporalExtent → Option Time × Option Time
bounds (interval s e) = (s, e)
bounds (window s e) = (some s, some e)
bounds _ = (none, none)
