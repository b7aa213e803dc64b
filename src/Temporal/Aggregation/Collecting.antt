-- ===== src/Temporal/Aggregation/Collecting.antt =====
-- `aggregateCandidates` of core/temporal/aggregation.go: the loop over the candidates.
use stacks.Base.{
  Bool, not, ◌&&◌, ◌||◌, Option, none, some, List, [], ◌∷◌, Text, is_empty, trim_space, same,
  nat_order, text_order, pair_order, find, store, or_else, Result, ok, refuse, ◌>>=◌, ◌>>◌,
  if◌then◌else◌,
}
use stacks.Observation.Extents.{TemporalExtent}
use stacks.Observation.Claims.{Observation, status_rejected}
use stacks.Temporal.Terms.{
  StateCandidate, TermIdentity, StateKeyIdentity, identity_for_term, identity_for_state_key,
  candidate_matches_observation,
}
use stacks.Temporal.Plans.{KnowledgeScope}
use stacks.Temporal.Eligibility.{recorded_time_eligible}
use stacks.Temporal.Aggregation.Equality.{observations_equal}
use stacks.Temporal.Aggregation.Accumulators.{KeyAccumulator, new_key_accumulator, classify}

pub record CandidateIdentity : Type 0 where
  pub key : StateKeyIdentity
  pub value : TermIdentity
  pub observation : Observation

abbrev pub Groups : Type 0
Groups = List (StateKeyIdentity × KeyAccumulator)

-- The two maps that the loop fills.
pub record Collected : Type 0 where
  pub groups : Groups
  pub seen : List (Text × CandidateIdentity)

abbrev pub ValidTimeSelector : Type 0
ValidTimeSelector = TemporalExtent → Bool × Bool

abbrev pub identity_for_candidate : StateCandidate → CandidateIdentity
identity_for_candidate c = record {
  key = identity_for_state_key c.key;
  value = identity_for_term c.value;
  observation = c.observation;
}

-- A candidate whose observation was seen before.
unfoldable pub check_repeat : CandidateIdentity → CandidateIdentity → Result (Unit {0})
check_repeat prior identity = do
  refuse (not (same prior.key identity.key) || not (same prior.value identity.value))
      "observation maps to conflicting state candidates"
  refuse (not (observations_equal prior.observation identity.observation))
      "observation maps to conflicting canonical payloads"

-- `groups[keyIdentity]` is made where it is missing, and the candidate is put in its class.
unfoldable pub admit : Bool → StateCandidate → Groups → Groups
admit temporally_uncertain c groups =
    let identity = identity_for_state_key c.key in
    store identity
      (classify temporally_uncertain c (or_else (find identity groups) (new_key_accumulator c.key)))
      groups

module _ (scope : KnowledgeScope) (select_valid_time : ValidTimeSelector) where
  -- The three filters between `seenObservations` and the groups.
  unfoldable pub is_selected : Observation → Bool
  is_selected value =
      recorded_time_eligible scope value
      && ((select_valid_time value.valid_time).0 || (select_valid_time value.valid_time).1)
      && not (same value.status status_rejected)

  unfoldable pub group_candidate : StateCandidate → Groups → Groups
  group_candidate c groups =
      if is_selected c.observation
      then admit (select_valid_time c.observation.valid_time).1 c groups
      else groups

  -- The body of the loop, behind the checks that the candidate alone has to pass.
  unfoldable pub collect_candidate :
      Option CandidateIdentity → StateCandidate → Collected → Result Collected
  collect_candidate (some prior) c s = do check_repeat prior (identity_for_candidate c); ok s
  collect_candidate none c s = ok (record {
    groups = group_candidate c s.groups;
    seen = store c.observation.id (identity_for_candidate c) s.seen;
  })

  unfoldable pub collect_step : StateCandidate → Collected → Result Collected
  collect_step c s = do
    candidate_matches_observation c
    refuse (is_empty (trim_space c.observation.id)) "state candidate observation is invalid"
    collect_candidate (find c.observation.id s.seen) c s

  unfoldable pub collect : List StateCandidate → Collected → Result Collected
  collect [] s = ok s
  collect (c ∷ cs) s = do s' ← collect_step c s; collect cs s'

  unfoldable pub aggregate_candidates : List StateCandidate → Result Groups
  aggregate_candidates candidates = do
    collected ← collect candidates (record { groups = []; seen = [] })
    ok collected.groups
