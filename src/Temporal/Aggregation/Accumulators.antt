-- ===== src/Temporal/Aggregation/Accumulators.antt =====
-- `factAccumulator` and `keyAccumulator` of core/temporal/aggregation.go, and how a candidate and
-- whole accumulators are merged into them.
use stacks.Base.{
  Bool, not, List, [], ◌∷◌, ◌++◌, Text, same, nat_order, text_order, pair_order, add, add_all, find,
  store, or_else, if◌then◌else◌,
}
use stacks.Observation.Terms.{Term}
use stacks.Observation.Extents.{TemporalExtent}
use stacks.Observation.Digests.{EvidenceLink}
use stacks.Observation.Claims.{
  Observation, evidence_supporting, evidence_contradicting, status_hypothesized,
}
use stacks.Temporal.Terms.{StateKey, StateCandidate, TermIdentity, identity_for_term}
use stacks.Temporal.Eligibility.{observation_has_supporting_evidence}

pub record FactAccumulator : Type 0 where
  pub key : StateKey
  pub value : Term
  pub observations : List Text
  pub supporting : List Text
  pub contradicting : List Text
  pub extents : List TemporalExtent

abbrev pub Accumulators : Type 0
Accumulators = List (TermIdentity × FactAccumulator)

pub record KeyAccumulator : Type 0 where
  pub key : StateKey
  pub supported : Accumulators
  pub tentative : Accumulators
  pub counter_only : Accumulators
  pub temporal_values : List TermIdentity
  pub hypothesis_values : List TermIdentity

unfoldable pub new_fact_accumulator : StateKey → Term → FactAccumulator
new_fact_accumulator key value = record {
  key = key;
  value = value;
  observations = [];
  supporting = [];
  contradicting = [];
  extents = [];
}

-- The body of the loop over the evidence links.
unfoldable pub absorb_link : EvidenceLink → FactAccumulator → FactAccumulator
absorb_link link acc =
    if same link.role evidence_supporting
    then record acc { supporting = add link.evidence_id acc.supporting }
    else if same link.role evidence_contradicting
    then record acc { contradicting = add link.evidence_id acc.contradicting }
    else acc

unfoldable pub absorb_links : List EvidenceLink → FactAccumulator → FactAccumulator
absorb_links [] acc = acc
absorb_links (link ∷ links) acc = absorb_links links (absorb_link link acc)

unfoldable pub absorb : Observation → FactAccumulator → FactAccumulator
absorb value acc = absorb_links value.evidence (record acc {
  observations = add value.id acc.observations;
  extents = acc.extents ++ value.valid_time ∷ [];
})

unfoldable pub merge_candidate : Accumulators → StateKey → Term → Observation → Accumulators
merge_candidate target key value observation =
    let identity = identity_for_term value in
    store identity
      (absorb observation (or_else (find identity target) (new_fact_accumulator key value))) target

unfoldable pub new_key_accumulator : StateKey → KeyAccumulator
new_key_accumulator key = record {
  key = key;
  supported = [];
  tentative = [];
  counter_only = [];
  temporal_values = [];
  hypothesis_values = [];
}

-- The `switch` of `aggregateCandidates`, on a candidate that is selected.
unfoldable pub classify : Bool → StateCandidate → KeyAccumulator → KeyAccumulator
classify temporally_uncertain c group =
    if not (observation_has_supporting_evidence c.observation)
    then record group {
      counter_only = merge_candidate group.counter_only c.key c.value c.observation;
    }
    else if temporally_uncertain
    then record group {
      tentative = merge_candidate group.tentative c.key c.value c.observation;
      temporal_values = add (identity_for_term c.value) group.temporal_values;
    }
    else if same c.observation.status status_hypothesized
    then record group {
      tentative = merge_candidate group.tentative c.key c.value c.observation;
      hypothesis_values = add (identity_for_term c.value) group.hypothesis_values;
    }
    else record group { supported = merge_candidate group.supported c.key c.value c.observation }

-- One source accumulator into a target of `mergeAccumulators`; the extents are not copied.
unfoldable pub unite : FactAccumulator → FactAccumulator → FactAccumulator
unite source target = record target {
  observations = add_all source.observations target.observations;
  supporting = add_all source.supporting target.supporting;
  contradicting = add_all source.contradicting target.contradicting;
}

unfoldable pub merge_into : Accumulators → Accumulators → Accumulators
merge_into [] merged = merged
merge_into ((identity, source) ∷ rest) merged = merge_into rest (
    store identity
      (unite source (or_else (find identity merged) (new_fact_accumulator source.key source.value)))
      merged)

-- `mergeAccumulators(supported, tentative, counterOnly)`
unfoldable pub merge_accumulators : Accumulators → Accumulators → Accumulators → Accumulators
unfolding merge_into unite
merge_accumulators first second third = merge_into third (merge_into second (merge_into first []))
