-- ===== src/Query/StateGaps.antt =====
-- internal/query/projection.go: the gaps of a result. A gap is the tuple of its fields, in the order
-- in which `orderGaps` compares them, and a set of gaps is a list of them.
use stacks.Base.{
  Bool, true, false, not, ◌||◌, List, [], ◌∷◌, Option, none, some, Text, bytes, is_empty, same,
  text_order, pair_order, member, add, add_all, sort_on, Result, ok, ◌>>◌, if◌then◌else◌,
}
use stacks.Observation.Terms.{Term, entity_term}
use stacks.Observation.Claims.{status_rejected}
use stacks.Temporal.Terms.{StateKey, StateCandidate, Fact}
use stacks.Temporal.Plans.{TemporalSelection}
use stacks.Temporal.Aggregation.{Summary, UnresolvedFact}
use stacks.Query.Snapshots.{
  Coverage, ReadSnapshot, coverage_unresolved_mention, coverage_authority_excluded,
}
use stacks.Query.Indexing.{validate_coverage_reasons}
use stacks.Query.Gaps.{definitely_outside_selection}

abbrev pub gap_no_evidence : Text
gap_no_evidence = bytes "no-evidence"

abbrev pub gap_valid_time_excluded : Text
gap_valid_time_excluded = bytes "valid-time-excluded"

abbrev pub gap_unresolved_mention : Text
gap_unresolved_mention = bytes "unresolved-mention"

abbrev pub gap_authority_excluded : Text
gap_authority_excluded = bytes "authority-excluded"

-- The entity, the kind, the label of the selection and the predicate.
abbrev pub Gap : Type 0
Gap = Text × (Text × (Text × Text))

abbrev pub outside_coverage : Coverage → Option TemporalSelection → Bool
outside_coverage coverage none = false
outside_coverage coverage (some selection) =
    definitely_outside_selection coverage.valid_time selection

-- The loop over the coverage.
unfoldable pub add_coverage_gaps : List Coverage → Option TemporalSelection → List Gap → List Gap
add_coverage_gaps [] selection gaps = gaps
add_coverage_gaps (coverage ∷ rest) selection gaps = add_coverage_gaps rest selection (
    if outside_coverage coverage selection
    then gaps
    else if same coverage.reason coverage_unresolved_mention
    then add (coverage.entity_id, (gap_unresolved_mention, ([], coverage.predicate))) gaps
    else if same coverage.reason coverage_authority_excluded
    then add (coverage.entity_id, (gap_authority_excluded, ([], coverage.predicate))) gaps
    else gaps)

-- The entity of a term, added to a list that does not have it.
abbrev pub add_entity : Term → List Text → List Text
add_entity (entity_term id grounding) ids = add id ids
add_entity term ids = ids

unfoldable pub state_entity_ids : StateKey → Term → List Text
state_entity_ids key value = sort_on (λ id. id) (add_entity value (add_entity key.subject []))

-- The loop over the entities of a candidate, and `added`.
unfoldable pub add_entity_gaps :
    List Text → List Text → Text → Text → List Gap × Bool → List Gap × Bool
add_entity_gaps requested [] label predicate s = s
add_entity_gaps requested (id ∷ ids) label predicate (gaps, added) =
    add_entity_gaps requested ids label predicate (
      if member id requested
      then (add (id, (gap_valid_time_excluded, (label, predicate))) gaps, true)
      else (gaps, added))

unfoldable pub add_candidate_gaps :
    List Text → TemporalSelection → StateCandidate → List Gap → List Gap
add_candidate_gaps requested selection candidate gaps =
    if same candidate.observation.status status_rejected
      || not (definitely_outside_selection candidate.observation.valid_time selection)
    then gaps
    else let s =
        add_entity_gaps requested (state_entity_ids candidate.key candidate.value) selection.label
          candidate.key.predicate (gaps, false) in
      if s.1
      then s.0
      else add ([], (gap_valid_time_excluded, (selection.label, candidate.key.predicate))) s.0

unfoldable pub add_valid_time_gaps :
    List Text → List StateCandidate → TemporalSelection → List Gap → List Gap
add_valid_time_gaps requested [] selection gaps = gaps
add_valid_time_gaps requested (candidate ∷ candidates) selection gaps =
    add_valid_time_gaps requested candidates selection
      (add_candidate_gaps requested selection candidate gaps)

-- `addStateMaterialEntityIDs`, over a list of facts.
unfoldable pub add_fact_material : List Fact → List Text → List Text
add_fact_material [] material = material
add_fact_material (fact ∷ facts) material =
    add_fact_material facts (add_all (state_entity_ids fact.key fact.value) material)

unfoldable pub add_unresolved_material : List UnresolvedFact → List Text → List Text
add_unresolved_material [] material = material
add_unresolved_material (item ∷ items) material =
    add_unresolved_material items (add_fact_material item.candidates material)

unfoldable pub add_state_summary_material : Summary → List Text → List Text
add_state_summary_material summary material =
    add_unresolved_material summary.unresolved (add_fact_material summary.facts material)

-- The loop over the summaries: the gaps and the entities with material.
unfoldable pub add_summaries :
    List Text → List StateCandidate → List Summary → List Gap × List Text → List Gap × List Text
add_summaries requested candidates [] s = s
add_summaries requested candidates (summary ∷ summaries) (gaps, material) =
    add_summaries requested candidates summaries (
      add_valid_time_gaps requested candidates summary.selection gaps,
      add_state_summary_material summary material,
    )

-- The loop over the gaps.
unfoldable pub add_gap_entities : List Gap → List Text → List Text
add_gap_entities [] material = material
add_gap_entities (gap ∷ gaps) material =
    add_gap_entities gaps (if is_empty gap.0 then material else add gap.0 material)

-- The loop over the entities of the request.
unfoldable pub add_no_evidence : List Text → List Text → List Gap → List Gap
add_no_evidence [] material gaps = gaps
add_no_evidence (id ∷ ids) material gaps =
    add_no_evidence ids material
      (if member id material then gaps else add (id, (gap_no_evidence, ([], []))) gaps)

-- The gaps before those of entities without evidence, and the entities with material.
unfoldable pub state_gap_material :
    List Text
    → ReadSnapshot
    → List StateCandidate
    → List Summary
    → Option TemporalSelection
    → List Gap × List Text
state_gap_material requested snapshot candidates summaries selection =
    add_summaries requested candidates summaries
      (add_coverage_gaps snapshot.coverage selection [], [])

unfoldable pub project_state_gaps :
    List Text
    → ReadSnapshot
    → List StateCandidate
    → List Summary
    → Option TemporalSelection
    → Result (List Gap)
project_state_gaps requested snapshot candidates summaries selection = do
  validate_coverage_reasons snapshot.coverage
  let s = state_gap_material requested snapshot candidates summaries selection
  ok (sort_on (λ gap. gap) (add_no_evidence requested (add_gap_entities s.0 s.1) s.0))
