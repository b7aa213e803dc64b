-- ===== src/Query/Gaps.antt =====
-- internal/query/projection.go: the observations that the valid time of a selection excludes.
use stacks.Base.{
  Bool, true, false, not, ◌&&◌, ◌||◌, Option, none, some, ◌==◌, if◌then◌else◌, ◌≡◌, refl, arith,
  text_order,
}
use stacks.Timepoint.{Time, before}
use stacks.Observation.Extents.{TemporalExtent, unknown, instant_at, interval, window, bounds}
use stacks.Temporal.Plans.{TemporalSelection, selection_point, selection_window}
use stacks.Temporal.Eligibility.{
  unless_open, valid_time_eligibility, point_valid_time_eligibility, interval_contains,
}

-- `hasBound && test(bound)`
abbrev pub if_bound : Option Time → (Time → Bool) → Bool
if_bound none test = false
if_bound (some t) test = test t

unfoldable pub point_inside_extent : TemporalExtent → Time → Bool
point_inside_extent extent point =
    unless_open (bounds extent).0 (λ s. not (before point s))
    && unless_open (bounds extent).1 (λ e. before point e)

unfoldable pub outside_point : TemporalExtent → Time → Bool
outside_point unknown point = false
outside_point (instant_at instant) point = not (instant == point)
outside_point (interval start end) point = not (point_inside_extent (interval start end) point)
outside_point (window start end) point = not (point_inside_extent (window start end) point)

-- `hasStart && !start.Before(windowEnd) || hasEnd && !end.After(windowStart)`
unfoldable pub bounds_outside : TemporalExtent → Time → Time → Bool
bounds_outside extent window_start window_end =
    if_bound (bounds extent).0 (λ s. not (before s window_end))
    || if_bound (bounds extent).1 (λ e. not (before window_start e))

unfoldable pub outside_window : TemporalExtent → Time → Time → Bool
outside_window unknown window_start window_end = false
outside_window (instant_at instant) window_start window_end =
    before instant window_start || not (before instant window_end)
outside_window (interval start end) window_start window_end =
    bounds_outside (interval start end) window_start window_end
outside_window (window start end) window_start window_end =
    bounds_outside (window start end) window_start window_end

unfoldable pub definitely_outside_selection : TemporalExtent → TemporalSelection → Bool
definitely_outside_selection extent selection =
    if selection.kind == selection_point
    then outside_point extent selection.start
    else if selection.kind == selection_window
    then outside_window extent selection.start selection.end
    else false

-- The eligibility of an extent for a selection, in core/temporal.
abbrev pub eligibility : TemporalExtent → TemporalSelection → Bool × Bool
eligibility extent selection =
    if selection.kind == selection_point
    then point_valid_time_eligibility selection.start extent
    else if selection.kind == selection_window
    then valid_time_eligibility selection.start selection.end extent
    else (false, true)

outside_point_lem :
    (extent : TemporalExtent) (point : Time)
    → outside_point extent point
      ≡ not (
          (point_valid_time_eligibility point extent).0
          || (point_valid_time_eligibility point extent).1)
unfolding outside_point point_valid_time_eligibility point_inside_extent bounds interval_contains
outside_point_lem unknown point = refl
outside_point_lem (instant_at instant) point = ground arith
outside_point_lem (interval start end) point = ground arith
outside_point_lem (window start end) point = ground arith

outside_window_lem :
    (extent : TemporalExtent) (a b : Time)
    → outside_window extent a b
      ≡ not ((valid_time_eligibility a b extent).0 || (valid_time_eligibility a b extent).1)
unfolding outside_window valid_time_eligibility bounds_outside bounds
outside_window_lem unknown a b = refl
outside_window_lem (instant_at instant) a b = ground arith
outside_window_lem (interval start end) a b = ground arith
outside_window_lem (window start end) a b = ground arith

-- A query reports an extent as outside of a selection exactly where core/temporal finds it neither
-- eligible nor uncertain.
pub definitely_outside_selection_lem :
    (extent : TemporalExtent) (selection : TemporalSelection)
    → definitely_outside_selection extent selection
      ≡ not ((eligibility extent selection).0 || (eligibility extent selection).1)
unfolding definitely_outside_selection
definitely_outside_selection_lem extent selection = ground (
  arith,
  outside_point_lem extent selection.start,
  outside_window_lem extent selection.start selection.end,
)
