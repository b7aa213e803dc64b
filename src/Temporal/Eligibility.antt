-- ===== src/Temporal/Eligibility.antt =====
-- The tests of core/temporal that decide which observations a selection covers: those of
-- aggregation.go on windows and recorded time, of point.go on instants, and of trajectory.go on
-- the moment before a window. A pair is `eligible, uncertain`.
use stacks.Base.{
  ℕ, Bool, true, false, not, ◌&&◌, ◌||◌, Option, none, some, List, [], ◌∷◌, same, text_order, any,
  ltb, ◌==◌, if◌then◌else◌,
}
use stacks.Timepoint.{Time, before}
use stacks.Observation.Extents.{
  TemporalExtent, unknown, instant_at, interval, window, bounds, instant_of,
}
use stacks.Observation.Claims.{Observation, evidence_supporting}
use stacks.Temporal.Plans.{TemporalSelection, KnowledgeScope, cutoff_of}
pub mod Meaning

-- `!hasBound || test(bound)`
abbrev pub unless_open : Option Time → (Time → Bool) → Bool
unless_open none test = true
unless_open (some t) test = test t

unfoldable pub recorded_time_eligible : KnowledgeScope → Observation → Bool
recorded_time_eligible scope value =
    unless_open (cutoff_of scope) (λ cutoff. not (before cutoff value.recorded_at))

-- Over `selection.Window()`.
unfoldable pub valid_time_eligibility : Time → Time → TemporalExtent → Bool × Bool
valid_time_eligibility window_start window_end unknown = (false, true)
valid_time_eligibility window_start window_end (instant_at instant) =
    (not (before instant window_start) && before instant window_end, false)
valid_time_eligibility window_start window_end (interval start end) = (
  unless_open start (λ s. before s window_end) && unless_open end (λ e. before window_start e),
  false,
)
valid_time_eligibility window_start window_end (window start end) =
    if not (before start window_end) || not (before window_start end)
    then (false, false)
    else (false, true)

unfoldable pub interval_contains : TemporalExtent → Time → Bool
unfolding bounds
interval_contains extent instant =
    unless_open (bounds extent).0 (λ s. not (before instant s))
    && unless_open (bounds extent).1 (λ e. before instant e)

unfoldable pub point_valid_time_eligibility : Time → TemporalExtent → Bool × Bool
unfolding interval_contains
point_valid_time_eligibility point unknown = (false, true)
point_valid_time_eligibility point (instant_at instant) = (instant == point, false)
point_valid_time_eligibility point (interval start end) =
    (interval_contains (interval start end) point, false)
point_valid_time_eligibility point (window start end) =
    if not (interval_contains (window start end) point) then (false, false) else (false, true)

-- `(!hasStart || start.Before(boundary)) && (!hasEnd || !end.Before(boundary))`
unfoldable pub overlaps_left : Time → TemporalExtent → Bool
unfolding bounds
overlaps_left boundary extent =
    unless_open (bounds extent).0 (λ s. before s boundary)
    && unless_open (bounds extent).1 (λ e. not (before e boundary))

unfoldable pub valid_immediately_before : Time → TemporalExtent → Bool × Bool
unfolding overlaps_left
valid_immediately_before boundary unknown = (false, true)
valid_immediately_before boundary (instant_at instant) = (false, false)
valid_immediately_before boundary (interval start end) =
    if not (overlaps_left boundary (interval start end)) then (false, false) else (true, false)
valid_immediately_before boundary (window start end) =
    if not (overlaps_left boundary (window start end)) then (false, false) else (false, true)

-- `!leftHasStart || !rightHasEnd || leftStart.Before(rightEnd)`
abbrev pub starts_before_end : Option Time → Option Time → Bool
starts_before_end start end = unless_open start (λ s. unless_open end (λ e. before s e))

unfoldable pub temporal_extents_overlap : TemporalExtent → TemporalExtent → Bool
unfolding bounds interval_contains
temporal_extents_overlap (instant_at left) (instant_at right) = left == right
temporal_extents_overlap (instant_at left) right = interval_contains right left
temporal_extents_overlap left (instant_at right) = interval_contains left right
temporal_extents_overlap left right =
    starts_before_end (bounds left).0 (bounds right).1
    && starts_before_end (bounds right).0 (bounds left).1

unfoldable pub observation_has_supporting_evidence : Observation → Bool
unfolding any
observation_has_supporting_evidence value =
    any (λ link. same link.role evidence_supporting) value.evidence
