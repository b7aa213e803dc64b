-- ===== src/Temporal/Trajectory/Steps.antt =====
-- The boundaries of a trajectory and the difference of two adjacent states, of
-- core/temporal/trajectory.go.
use stacks.Base.{
  Bool, false, not, ◌&&◌, ◌||◌, Option, none, some, List, [], ◌∷◌, ◌++◌, Text, same, nat_order,
  text_order, pair_order, add, find, store, sort_on, length, Result, ok, refuse, ◌>>=◌, ◌>>◌, ◌==◌,
  if◌then◌else◌,
}
use stacks.Timepoint.{Time, before}
use stacks.Observation.Extents.{TemporalExtent, instant_of, bounds}
use stacks.Observation.Claims.{Observation, status_rejected}
use stacks.Temporal.Terms.{
  StateKey, StateCandidate, Fact, StateKeyIdentity, identity_for_state_key,
  candidate_matches_observation,
}
use stacks.Temporal.Plans.{KnowledgeScope}
use stacks.Temporal.Eligibility.{recorded_time_eligible}
use stacks.Temporal.Aggregation.{Summary, UnresolvedFact, observations_equal}
use stacks.Temporal.Comparison.{Facts, Unresolved, store_fact_keys, order_keys, change_of}

pub record Transition : Type 0 where
  pub kind : Text
  pub key : StateKey
  pub valid_time : TemporalExtent
  pub before_fact : Option Fact
  pub after_fact : Option Fact
  pub unresolved : List UnresolvedFact

abbrev pub Observations : Type 0
Observations = List (Text × Observation)

-- `if hasBound && test { boundaries[bound] = struct{}{} }`
abbrev add_if : Option Time → (Time → Bool) → List Time → List Time
add_if none test times = times
add_if (some t) test times = if test t then add t times else times

unfoldable pub add_trajectory_boundaries : Time → Time → TemporalExtent → List Time → List Time
add_trajectory_boundaries window_start window_end extent boundaries = elim (instant_of extent) [
  | some t ↦
      if not (before t window_start) && before t window_end then add t boundaries else boundaries
  | none ↦
      add_if (bounds extent).1 (λ e. before window_start e && before e window_end)
        (add_if (bounds extent).0 (λ s. not (before s window_start) && before s window_end)
          boundaries)
]

-- The two maps that the first loop of `BuildTrajectory` fills.
pub record Outline : Type 0 where
  pub boundaries : List Time
  pub observations : Observations

abbrev conflicts : Option Observation → Observation → Bool
conflicts none value = false
conflicts (some previous) value = not (observations_equal previous value)

module _ (window_start window_end : Time) (scope : KnowledgeScope) where
  unfoldable pub outline_step : StateCandidate → Outline → Result Outline
  outline_step c s = do
    candidate_matches_observation c
    let value = c.observation
    refuse (conflicts (find value.id s.observations) value)
        "observation maps to conflicting canonical payloads"
    ok (record {
      boundaries =
          if not (recorded_time_eligible scope value) || same value.status status_rejected
          then s.boundaries
          else add_trajectory_boundaries window_start window_end value.valid_time s.boundaries;
      observations = store value.id value s.observations;
    })

  unfoldable pub outline : List StateCandidate → Outline → Result Outline
  outline [] s = ok s
  outline (c ∷ cs) s = do s' ← outline_step c s; outline cs s'

unfoldable pub facts_by_identity : List Fact → Facts → Facts
facts_by_identity [] result = result
facts_by_identity (fact ∷ rest) result =
    facts_by_identity rest (store (identity_for_state_key fact.key) fact result)

unfoldable pub unresolved_by_identity : List UnresolvedFact → Unresolved → Unresolved
unresolved_by_identity [] result = result
unresolved_by_identity (item ∷ rest) result =
    unresolved_by_identity rest (store (identity_for_state_key item.key) item result)

-- An entry that a map lacks has no candidates, and is left out.
unfoldable pub with_candidates : Option UnresolvedFact → List UnresolvedFact
with_candidates none = []
with_candidates (some item) = if length item.candidates == 0 then [] else item ∷ []

unfoldable pub trajectory_unresolved :
    Option UnresolvedFact → Option UnresolvedFact → List UnresolvedFact
trajectory_unresolved left right =
    sort_on {K = StateKeyIdentity × Text} (λ u. (identity_for_state_key u.key, u.reason))
      (with_candidates left ++ with_candidates right)

module _ (before_state after_state : Summary) (valid_time : TemporalExtent) where
  abbrev before_facts : Facts
  before_facts = facts_by_identity before_state.facts []

  abbrev after_facts : Facts
  after_facts = facts_by_identity after_state.facts []

  -- The `switch` of the loop, which is that of the comparison.
  unfoldable pub transition_at : StateKey → List Transition
  transition_at key =
      let identity = identity_for_state_key key in
      elim (change_of key (find identity before_facts) (find identity after_facts)) [
        | none ↦ []
        | some change ↦
            record {
              kind = change.kind;
              key = key;
              valid_time = valid_time;
              before_fact = change.before;
              after_fact = change.after;
              unresolved =
                  trajectory_unresolved
                    (find identity (unresolved_by_identity before_state.unresolved []))
                    (find identity (unresolved_by_identity after_state.unresolved []));
            }
            ∷ []
      ]

  unfoldable pub transitions_at : List StateKey → List Transition
  transitions_at [] = []
  transitions_at (key ∷ keys) = transition_at key ++ transitions_at keys

  unfoldable pub diff_trajectory_state : List Transition
  diff_trajectory_state =
      transitions_at (order_keys (store_fact_keys after_facts (store_fact_keys before_facts [])))
