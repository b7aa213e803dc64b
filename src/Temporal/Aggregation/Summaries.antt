-- ===== src/Temporal/Aggregation/Summaries.antt =====
-- `AggregateWindow` and `summarizeGroups` of core/temporal/aggregation.go, and `ReconstructState`
-- of core/temporal/point.go.
use stacks.Base.{
  ◌≡◌, arith, Bool, true, false, not, ◌||◌, Option, none, some, List, [], ◌∷◌, ◌++◌, map, Text,
  bytes, same, nat_order, text_order, pair_order, member, find, sort_on, any, all, Result, ok,
  refuse, ◌>>=◌, ◌>>◌, ◌==◌, if◌then◌else◌,
}
use stacks.Observation.Extents.{TemporalExtent}
use stacks.Temporal.Terms.{
  StateKey, StateCandidate, Fact, TermIdentity, identity_for_term, identity_for_state_key,
}
use stacks.Temporal.Plans.{
  TemporalSelection, KnowledgeScope, selection_point, selection_window, scope_invalid,
}
use stacks.Temporal.Eligibility.{
  valid_time_eligibility, point_valid_time_eligibility, temporal_extents_overlap,
}
use stacks.Temporal.Aggregation.Accumulators.{
  FactAccumulator, Accumulators, KeyAccumulator, merge_accumulators,
}
use stacks.Temporal.Aggregation.Collecting.{Groups, ValidTimeSelector, aggregate_candidates}

abbrev pub unresolved_conflict : Text
unresolved_conflict = bytes "conflicting-values"

abbrev pub unresolved_transition : Text
unresolved_transition = bytes "multiple-states-in-window"

abbrev pub unresolved_temporal_uncertainty : Text
unresolved_temporal_uncertainty = bytes "temporal-uncertainty"

abbrev pub unresolved_hypothesis : Text
unresolved_hypothesis = bytes "hypothesized"

abbrev pub unresolved_counterevidence_only : Text
unresolved_counterevidence_only = bytes "counterevidence-only"

pub record UnresolvedFact : Type 0 where
  pub key : StateKey
  pub reason : Text
  pub candidates : List Fact

-- `WindowSummary` and `PointSummary`
pub record Summary : Type 0 where
  pub selection : TemporalSelection
  pub facts : List Fact
  pub unresolved : List UnresolvedFact

pub record StateMaterial : Type 0 where
  pub facts : List Fact
  pub unresolved : List UnresolvedFact

abbrev pub accumulator_order : TermIdentity × FactAccumulator → TermIdentity
accumulator_order entry = identity_for_term (entry.1).value

-- The entries of a map of accumulators in the order of `sortedAccumulatorValues`, which returns
-- their keys.
unfoldable pub sorted_entries : Accumulators → Accumulators
sorted_entries values = sort_on accumulator_order values

unfoldable pub sorted_accumulator_values : Accumulators → List TermIdentity
unfolding sorted_entries
sorted_accumulator_values values = map (λ e. e.0) (sorted_entries values)

unfoldable pub accumulator_fact : FactAccumulator → Fact
accumulator_fact acc = record {
  key = acc.key;
  value = acc.value;
  observation_ids = sort_on (λ id. id) acc.observations;
  supporting_evidence_ids = sort_on (λ id. id) acc.supporting;
  contradicting_evidence_ids = sort_on (λ id. id) acc.contradicting;
}

unfoldable pub ordered_accumulator_facts : Accumulators → List Fact
unfolding sorted_entries
ordered_accumulator_facts values = map (λ e. accumulator_fact e.1) (sorted_entries values)

unfoldable pub no_alternative_values : TermIdentity → List TermIdentity → Bool
no_alternative_values supported tentative = all (λ value. same value supported) tentative

unfoldable pub has_alternative : List TermIdentity → List TermIdentity → Bool
has_alternative [] supported = false
has_alternative (value ∷ rest) [] = true
has_alternative (value ∷ rest) (s ∷ supported) =
    any (λ v. not (member v (s ∷ supported))) (value ∷ rest)

-- The nested loops of `supportedValuesOverlap`, over the extents of each value.
unfoldable pub pairs_overlap : List (List TemporalExtent) → Bool
pairs_overlap [] = false
pairs_overlap (left ∷ rest) =
    any (λ right. any (λ l. any (λ r. temporal_extents_overlap l r) right) left) rest
    || pairs_overlap rest

unfoldable pub supported_values_overlap : Accumulators → Bool
unfolding sorted_entries
supported_values_overlap values = pairs_overlap (map (λ e. (e.1).extents) (sorted_entries values))

-- `len(values) > 1`, for the set of the supported and the tentative values.
unfoldable pub more_than_one : List TermIdentity → Bool
more_than_one [] = false
more_than_one (value ∷ rest) = any (λ v. not (same v value)) rest

unfoldable pub unresolved_reason :
    KeyAccumulator → List TermIdentity → List TermIdentity → List TermIdentity → Text
unresolved_reason group supported tentative counter_only =
    if has_alternative group.temporal_values supported
    then unresolved_temporal_uncertainty
    else if has_alternative group.hypothesis_values supported
    then unresolved_hypothesis
    else if more_than_one (supported ++ tentative)
    then (if supported_values_overlap group.supported
        then unresolved_conflict
        else unresolved_transition)
    else (elim counter_only [
      | [] ↦ unresolved_hypothesis
      | _ ∷ _ ↦ unresolved_counterevidence_only
    ])

-- The one supported value of a group that has no counterevidence alone and no alternative.
unfoldable pub resolved_value :
    List TermIdentity → List TermIdentity → List TermIdentity → Option TermIdentity
resolved_value (value ∷ []) tentative [] =
    if no_alternative_values value tentative then some value else none
resolved_value _ _ _ = none

unfoldable pub unresolved_fact : KeyAccumulator → Accumulators → List UnresolvedFact
unresolved_fact group [] = []
unresolved_fact group (c ∷ cs) =
    record {
      key = group.key;
      reason =
          unresolved_reason group (sorted_accumulator_values group.supported)
            (sorted_accumulator_values group.tentative)
            (sorted_accumulator_values group.counter_only);
      candidates = ordered_accumulator_facts (c ∷ cs);
    }
    ∷ []

abbrev pub group_value : KeyAccumulator → Option TermIdentity
group_value group =
    resolved_value (sorted_accumulator_values group.supported)
      (sorted_accumulator_values group.tentative) (sorted_accumulator_values group.counter_only)

-- `accumulatorFact(group.supported[value])`
unfoldable pub found_fact : Option FactAccumulator → List Fact
found_fact none = []
found_fact (some acc) = accumulator_fact acc ∷ []

unfoldable pub resolved_facts : Option TermIdentity → KeyAccumulator → List Fact
resolved_facts none group = []
resolved_facts (some value) group = found_fact (find value group.supported)

unfoldable pub contested_facts : Option TermIdentity → KeyAccumulator → List UnresolvedFact
contested_facts none group =
    unresolved_fact group (merge_accumulators group.supported group.tentative group.counter_only)
contested_facts (some value) group = []

-- The facts that one group adds, and the unresolved facts.
unfoldable pub group_facts : KeyAccumulator → List Fact
unfolding resolved_facts found_fact
group_facts group = resolved_facts (group_value group) group

unfoldable pub group_unresolved : KeyAccumulator → List UnresolvedFact
unfolding contested_facts
group_unresolved group = contested_facts (group_value group) group

unfoldable pub summarize_ordered : List KeyAccumulator → StateMaterial
summarize_ordered [] = record { facts = []; unresolved = [] }
summarize_ordered (group ∷ groups) =
    let rest = summarize_ordered groups in
    record {
      facts = group_facts group ++ rest.facts;
      unresolved = group_unresolved group ++ rest.unresolved;
    }

unfoldable pub summarize_groups : Groups → StateMaterial
summarize_groups groups =
    summarize_ordered (sort_on (λ group. identity_for_state_key group.key) (map (λ e. e.1) groups))

-- The two functions differ in the kind of the selection and in the test on valid time.
unfoldable pub summarize :
    TemporalSelection → KnowledgeScope → ValidTimeSelector → List StateCandidate → Result Summary
summarize selection scope select candidates = do
  groups ← aggregate_candidates scope select candidates
  let material = summarize_groups groups
  ok (record { selection = selection; facts = material.facts; unresolved = material.unresolved })

unfoldable pub aggregate_window :
    TemporalSelection → KnowledgeScope → List StateCandidate → Result Summary
unfolding summarize
aggregate_window selection scope candidates = do
  refuse (not (selection.kind == selection_window)) "state aggregation requires a window selection"
  refuse (scope_invalid scope) "state aggregation knowledge scope is invalid"
  summarize selection scope (valid_time_eligibility selection.start selection.end) candidates

unfoldable pub reconstruct_state :
    TemporalSelection → KnowledgeScope → List StateCandidate → Result Summary
unfolding summarize
reconstruct_state selection scope candidates = do
  refuse (not (selection.kind == selection_point)) "state reconstruction requires a point selection"
  refuse (scope_invalid scope) "state reconstruction knowledge scope is invalid"
  summarize selection scope (point_valid_time_eligibility selection.start) candidates

pub aggregate_window-eq-ok :
    (selection : TemporalSelection) (scope : KnowledgeScope) (candidates : List StateCandidate)
    → {summary : Summary} → aggregate_window selection scope candidates ≡ ok summary
    → summarize selection scope (valid_time_eligibility selection.start selection.end) candidates
      ≡ ok summary
unfolding aggregate_window
aggregate_window-eq-ok selection scope candidates h = ground arith

pub reconstruct_state-eq-ok :
    (selection : TemporalSelection) (scope : KnowledgeScope) (candidates : List StateCandidate)
    → {summary : Summary} → reconstruct_state selection scope candidates ≡ ok summary
    → summarize selection scope (point_valid_time_eligibility selection.start) candidates
      ≡ ok summary
unfolding reconstruct_state
reconstruct_state-eq-ok selection scope candidates h = ground arith
