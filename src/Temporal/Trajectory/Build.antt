-- ===== src/Temporal/Trajectory/Build.antt =====
-- `orderCoreTransitions` and `BuildTrajectory` of core/temporal/trajectory.go.
use stacks.Base.{
  not, ◌||◌, Option, none, some, List, [], ◌∷◌, ◌++◌, Text, is_empty, is_lt, cmp, nat_order,
  text_order, pair_order, add, find, or_else, sort_on, Result, ok, refuse, ◌>>=◌, ◌>>◌, ◌==◌,
  if◌then◌else◌,
}
use stacks.Timepoint.{Time, before, is_zero, zero_time}
use stacks.Observation.Extents.{at_time, instant_of}
use stacks.Observation.Claims.{Observation}
use stacks.Temporal.Terms.{StateCandidate, Fact, StateKeyIdentity, identity_for_state_key}
use stacks.Temporal.Plans.{TemporalSelection, KnowledgeScope, selection_window, scope_invalid}
use stacks.Temporal.Eligibility.{valid_immediately_before}
use stacks.Temporal.Aggregation.{
  Summary, UnresolvedFact, aggregate_candidates, summarize_groups, aggregate_window,
}
use stacks.Temporal.Trajectory.Steps.{Transition, Observations, outline, diff_trajectory_state}

abbrev fact_ids : Option Fact → List Text
fact_ids none = []
fact_ids (some fact) = fact.observation_ids

unfoldable pub candidate_ids : List Fact → List Text
candidate_ids [] = []
candidate_ids (fact ∷ rest) = fact.observation_ids ++ candidate_ids rest

unfoldable pub unresolved_ids : List UnresolvedFact → List Text
unresolved_ids [] = []
unresolved_ids (item ∷ rest) = candidate_ids item.candidates ++ unresolved_ids rest

unfoldable pub transition_observation_ids : Transition → List Text
transition_observation_ids value =
    fact_ids value.before_fact ++ (fact_ids value.after_fact ++ unresolved_ids value.unresolved)

-- `observations[id].RecordedAt()`, which is the zero time for a missing identifier.
abbrev recorded_of : Option Observation → Time
recorded_of none = zero_time
recorded_of (some value) = value.recorded_at

unfoldable pub earliest_recorded : Observations → List Text → Time → Time
earliest_recorded observations [] earliest = earliest
earliest_recorded observations (id ∷ ids) earliest =
    let recorded_at = recorded_of (find id observations) in
    earliest_recorded observations ids
      (if is_zero earliest || before recorded_at earliest then recorded_at else earliest)

-- The least of the identifiers, and the empty text for none.
unfoldable pub first_id : List Text → Text → Text
first_id [] first = first
first_id (id ∷ ids) first =
    first_id ids (if is_empty first || is_lt (cmp id first) then id else first)

unfoldable pub core_transition_tie : Transition → Observations → Time × Text
core_transition_tie value observations =
    let ids = transition_observation_ids value in
    (earliest_recorded observations ids zero_time, first_id ids [])

-- The order of `orderCoreTransitions`: the instant, the tie, the state key and the kind.
unfoldable pub transition_key :
    Observations → Transition → Time × ((Time × Text) × (StateKeyIdentity × Text))
transition_key observations value = (
  or_else (instant_of value.valid_time) zero_time,
  (core_transition_tie value observations, (identity_for_state_key value.key, value.kind)),
)

unfoldable pub order_core_transitions : List Transition → Observations → List Transition
order_core_transitions values observations = sort_on (transition_key observations) values

-- The loop over adjacent boundaries.
unfoldable pub walk_partitions :
    TemporalSelection
    → KnowledgeScope
    → List StateCandidate
    → List Time
    → Summary
    → Result (List Transition)
walk_partitions selection scope candidates (start ∷ end ∷ rest) previous = do
  let partition : TemporalSelection = record {
    kind = selection_window;
    label = selection.label;
    start = start;
    end = end;
  }
  current ← aggregate_window partition scope candidates
  at_boundary ← at_time start
  transitions ← walk_partitions selection scope candidates (end ∷ rest) current
  ok (diff_trajectory_state previous current at_boundary ++ transitions)
walk_partitions selection scope candidates _ previous = ok []

unfoldable pub build_trajectory :
    TemporalSelection → KnowledgeScope → List StateCandidate → Result (List Transition)
build_trajectory selection scope candidates = do
  refuse (not (selection.kind == selection_window)) "trajectory requires a window selection"
  refuse (scope_invalid scope) "trajectory knowledge scope is invalid"
  outlined ←
      outline selection.start selection.end scope candidates
        (record { boundaries = add selection.end (add selection.start []); observations = [] })
  groups ← aggregate_candidates scope (valid_immediately_before selection.start) candidates
  let material = summarize_groups groups
  transitions ←
      walk_partitions selection scope candidates (sort_on (λ t. t) outlined.boundaries)
        (record { selection = selection; facts = material.facts; unresolved = material.unresolved })
  ok (order_core_transitions transitions outlined.observations)
