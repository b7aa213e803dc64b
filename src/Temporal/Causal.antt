-- ===== src/Temporal/Causal.antt =====
-- core/temporal/causal.go: the explicit causal links of one window, in chronological order.
use stacks.Base.{
  ℕ, Bool, true, false, not, ◌&&◌, ◌||◌, Option, none, some, List, [], ◌∷◌, map, Text, bytes,
  is_empty, is_lt, cmp, same, nat_order, text_order, pair_order, add, find, store, or_else, sort_on,
  Result, ok, refuse, ◌>>=◌, ◌>>◌, ◌==◌, if◌then◌else◌,
}
use stacks.Timepoint.{Time, before, is_zero, zero_time}
use stacks.Observation.Terms.{Term}
use stacks.Observation.Extents.{TemporalExtent, instant_of, bounds}
use stacks.Observation.Digests.{EvidenceLink}
use stacks.Observation.Claims.{Observation, evidence_supporting, evidence_contradicting}
use stacks.Temporal.Terms.{
  StateCandidate, TermIdentity, identity_for_term, candidate_matches_observation,
}
use stacks.Temporal.Plans.{TemporalSelection, KnowledgeScope, selection_window, scope_invalid}
use stacks.Temporal.Eligibility.{recorded_time_eligible, valid_time_eligibility}
use stacks.Temporal.Aggregation.{CandidateIdentity, identity_for_candidate, observations_equal}

abbrev pub causal_predicate : Text
causal_predicate = bytes "stacks.causal.v1/causes"

pub record CausalLink : Type 0 where
  pub cause : Term
  pub effect : Term
  pub observation_ids : List Text
  pub supporting_evidence_ids : List Text
  pub contradicting_evidence_ids : List Text

pub record CausalAccumulator : Type 0 where
  pub cause : Term
  pub effect : Term
  pub observations : List (Text × Observation)
  pub supporting : List Text
  pub contradicting : List Text

abbrev pub CausalGroups : Type 0
CausalGroups = List ((TermIdentity × TermIdentity) × CausalAccumulator)

pub record CausalState : Type 0 where
  pub groups : CausalGroups
  pub seen : List (Text × CandidateIdentity)

unfoldable pub causal_link : EvidenceLink → CausalAccumulator → CausalAccumulator
causal_link link group =
    if same link.role evidence_supporting
    then record group { supporting = add link.evidence_id group.supporting }
    else if same link.role evidence_contradicting
    then record group { contradicting = add link.evidence_id group.contradicting }
    else group

unfoldable pub causal_links : List EvidenceLink → CausalAccumulator → CausalAccumulator
unfolding causal_link
causal_links [] group = group
causal_links (link ∷ links) group = causal_links links (causal_link link group)

unfoldable pub causal_admit : StateCandidate → CausalGroups → CausalGroups
unfolding causal_links
causal_admit c groups =
    let identity : TermIdentity × TermIdentity =
      (identity_for_term c.key.subject, identity_for_term c.value) in
    let group : CausalAccumulator = or_else (find identity groups) (record {
      cause = c.key.subject;
      effect = c.value;
      observations = [];
      supporting = [];
      contradicting = [];
    }) in
    store identity
      (causal_links c.observation.evidence
        (record group { observations = store c.observation.id c.observation group.observations }))
      groups

unfoldable pub causal_conflict : CandidateIdentity → CandidateIdentity → Bool
causal_conflict prior identity =
    not (same prior.key identity.key)
    || not (same prior.value identity.value)
    || not (observations_equal prior.observation identity.observation)

module _ (selection : TemporalSelection) (scope : KnowledgeScope) where
  unfoldable pub causal_selected : Observation → Bool
  causal_selected value =
      recorded_time_eligible scope value
      && (valid_time_eligibility selection.start selection.end value.valid_time).0

  unfoldable pub causal_candidate :
      Option CandidateIdentity → StateCandidate → CausalState → Result CausalState
  causal_candidate (some prior) c s = do
    refuse (causal_conflict prior (identity_for_candidate c))
        "causal observation maps to conflicting canonical payloads"
    ok s
  causal_candidate none c s = ok (record {
    groups = if causal_selected c.observation then causal_admit c s.groups else s.groups;
    seen = store c.observation.id (identity_for_candidate c) s.seen;
  })

  -- A candidate of another predicate is passed over.
  unfoldable pub causal_relevant : Bool → StateCandidate → CausalState → Result CausalState
  causal_relevant false c s = ok s
  causal_relevant true c s = causal_candidate (find c.observation.id s.seen) c s

  unfoldable pub causal_step : StateCandidate → CausalState → Result CausalState
  causal_step c s = do
    candidate_matches_observation c
    causal_relevant (same c.key.predicate causal_predicate) c s

  unfoldable pub causal_collect : List StateCandidate → CausalState → Result CausalState
  causal_collect [] s = ok s
  causal_collect (c ∷ cs) s = do s' ← causal_step c s; causal_collect cs s'

unfoldable pub causal_extent_bound : TemporalExtent → Time
causal_extent_bound value = elim (instant_of value) [
  | some instant ↦ instant
  | none ↦ or_else (bounds value).0 (or_else (bounds value).1 zero_time)
]

-- `earliestValid`, `earliestRecorded` and `earliestID`.
abbrev pub Chronology : Type 0
Chronology = Time × (Time × Text)

unfoldable pub chronology_step : Text → Observation → Chronology → Chronology
unfolding causal_extent_bound
chronology_step id value (earliest_valid, (earliest_recorded, earliest_id)) =
    let valid = causal_extent_bound value.valid_time in
    (
      (if is_zero earliest_valid || (not (is_zero valid) && before valid earliest_valid)
          then valid
          else earliest_valid),
      (
        (if is_zero earliest_recorded || before value.recorded_at earliest_recorded
            then value.recorded_at
            else earliest_recorded),
        (if is_empty earliest_id || is_lt (cmp id earliest_id) then id else earliest_id),
      ),
    )

unfoldable pub chronology_from : List (Text × Observation) → Chronology → Chronology
unfolding chronology_step
chronology_from [] c = c
chronology_from ((id, value) ∷ rest) c = chronology_from rest (chronology_step id value c)

unfoldable pub causal_accumulator_chronology : CausalAccumulator → Chronology
unfolding chronology_from
causal_accumulator_chronology value =
    chronology_from value.observations (zero_time, (zero_time, []))

-- The order of `compareCausalTime`: an absent time comes last.
unfoldable pub causal_time_key : Time → ℕ × Time
causal_time_key t = ((if is_zero t then 1 else 0), t)

abbrev pub CausalKey : Type 0
CausalKey = (ℕ × Time) × ((ℕ × Time) × (Text × (TermIdentity × TermIdentity)))

-- The order of `compareCausalAccumulators`.
unfoldable pub causal_key : CausalAccumulator → CausalKey
causal_key value =
    let c = causal_accumulator_chronology value in
    (
      causal_time_key c.0,
      (
        causal_time_key (c.1).0,
        ((c.1).1, (identity_for_term value.cause, identity_for_term value.effect)),
      ),
    )

unfoldable pub causal_accumulator_link : CausalAccumulator → CausalLink
causal_accumulator_link value = record {
  cause = value.cause;
  effect = value.effect;
  observation_ids = sort_on (λ id. id) (map (λ e. e.0) value.observations);
  supporting_evidence_ids = sort_on (λ id. id) value.supporting;
  contradicting_evidence_ids = sort_on (λ id. id) value.contradicting;
}

unfoldable pub build_causal_chain :
    TemporalSelection → KnowledgeScope → List StateCandidate → Result (List CausalLink)
build_causal_chain selection scope candidates = do
  refuse (not (selection.kind == selection_window)) "causal chain requires a window selection"
  refuse (scope_invalid scope) "causal chain knowledge scope is invalid"
  collected ← causal_collect selection scope candidates (record { groups = []; seen = [] })
  ok (map causal_accumulator_link (sort_on causal_key (map (λ e. e.1) collected.groups)))
