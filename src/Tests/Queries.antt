-- ===== src/Tests/Queries.antt =====
-- A request for one person, and a snapshot with one cited observation of her role.
use stacks.Query.Material.{has_material}
use stacks.Query.Naming.{withheld, excluded}
use stacks.Temporal.Aggregation.{Summary, aggregate_window}
use stacks.Tests.Runs.{aggregation}
use stacks.Query.Projections.{
  project_facts, project_citations, project_contributions, project_fact, CitedFact,
}
use stacks.Query.Cited.{project_facts-aggregate_window}
use stacks.Observation.Extents.{bounds, interval}
use stacks.Base.{
  add_all, add, sort_on, store, trim_space, pair_cmp, list_cmp, Bool, ◌≡◌, refl, true, false, not,
  ◌&&◌, ◌||◌, List, [], ◌∷◌, map, some, none, Text, bytes, same, text_order, any, member, ok, err,
  ◌↔◌, all, is_some, find, is_empty,
}
use stacks.Query.Gaps.{
  definitely_outside_selection, outside_window, bounds_outside, outside_point, point_inside_extent,
}
use stacks.Query.StateGaps.{
  add_no_evidence, add_gap_entities, add_summaries, add_state_summary_material,
  add_unresolved_material, add_fact_material, add_valid_time_gaps, add_candidate_gaps,
  add_entity_gaps, state_entity_ids, add_coverage_gaps, project_state_gaps, state_gap_material,
  gap_no_evidence, Gap,
}
use stacks.Query.Authority.{
  check_entities, collect_authorities, known_conflicts, validate_snapshot_authority,
}
use stacks.Query.Indexing.{
  read_observations, read_observation, admit_candidate, state_candidates_equal,
  contribution_from_read_observation, index_observation_evidence, index_citations, citations_equal,
  citation_metadata_equal, citation_valid, validate_coverage_reasons, coverage_reason_valid,
  index_snapshot,
}
use stacks.Observation.Claims.{
  new_predicate, role_valid, status_valid, Observation, evidence_supporting, status_observed,
}
use stacks.Temporal.Plans.{
  new_plan, intent_valid, normalize_unique_strings, validate_selections, check_selections,
  collect_unique, operations_for, scope_invalid, second_starts_later, intent_trajectory,
}
use stacks.Query.Requests.{
  normalize_entity_ids, collect_entity_ids, normalize_predicates, collect_predicates,
  validate_intent_limit, Request, Limits, normalize_request, entity_match_all, validate_limits,
}
use stacks.Observation.Terms.{kind, text_term, entity_term}
use stacks.Temporal.Terms.{
  new_state_key, term_payload, validate_state_key, compare_terms, Fact, StateCandidate,
  candidate_matches_observation,
}
use stacks.Query.Resolved.{
  resolved_term_matches_source, matches_source, canonical_resolved_term,
  candidate_from_read_observation,
}
use stacks.Tests.Samples.{moment, link, whole_window, everything_known, claim, engineer_summary}
use stacks.Encodings.Ints.{pos}
use stacks.Query.Accepted.{normalize_request_again}
use stacks.Query.Snapshots.{
  ReadObservation, ReadSnapshot, EntityAuthority, Citation, ProjectionIndex,
}
use stacks.Query.Authorities.{
  validate_snapshot_authority_iff, validate_snapshot_authority-unknown, authorities_fit, all_known,
  entries,
}
use stacks.Query.Qualified.{candidate_from_read_observation-eq-ok}
use stacks.Query.Indexed.{project_fact-eq-ok, Projects}
use stacks.Query.Accounted.{project_state_gaps-lacks, lacks_evidence}

abbrev role_request : Request
role_request = record {
  intent = intent_trajectory;
  entity_ids = bytes " zoe" ∷ bytes "ada " ∷ [];
  entity_match = [];
  predicates = bytes "role" ∷ [];
  selections = whole_window ∷ [];
  knowledge_scope = everything_known;
  limit = pos 5;
}

-- The same request in normal form.
abbrev role_query : Request
role_query = record role_request {
  entity_ids = bytes "ada" ∷ bytes "zoe" ∷ [];
  entity_match = entity_match_all;
}

abbrev some_limits : Limits
some_limits = record { max_entities = pos 10; max_predicates = pos 10; max_chronology = pos 100 }

-- The least limits that the request fits.
abbrev tight_limits : Limits
tight_limits = record { max_entities = pos 2; max_predicates = pos 1; max_chronology = pos 5 }

accepted_request : normalize_request role_request some_limits ≡ ok role_query
unfolding normalize_request validate_limits normalize_entity_ids collect_entity_ids trim_space bytes
    member add list_cmp normalize_predicates collect_predicates new_predicate new_plan intent_valid
    normalize_unique_strings sort_on validate_selections validate_intent_limit check_selections
    collect_unique operations_for scope_invalid second_starts_later
accepted_request = refl

positive : validate_limits tight_limits ≡ ok tt
unfolding validate_limits
positive = refl

normalize_request_again_example : normalize_request role_query tight_limits ≡ ok role_query
normalize_request_again_example =
    normalize_request_again role_request some_limits tight_limits role_query accepted_request
      positive refl refl refl

abbrev citation : Citation
citation = record {
  evidence_id = bytes "e1";
  role = evidence_supporting;
  source_document_id = bytes "d1";
  document_version_id = bytes "v1";
  section_id = bytes "s1";
  section_title = bytes "Notes";
  section_path = [];
  section_order = pos 0;
  section_role = bytes "body";
  start_offset = pos 0;
  end_offset = pos 3;
  locator = [];
  text = bytes "ada";
}

abbrev ada_works : Observation
ada_works =
    claim (bytes "o1") (bytes "engineer") (interval (some (moment 1000)) none) status_observed
      (link (bytes "e1") evidence_supporting ∷ [])

abbrev reading : ReadObservation
reading = record {
  observation = ada_works;
  subject = entity_term (bytes "ada") [];
  object = text_term (bytes "engineer");
  subject_grounding_mention_id = bytes "m1";
  object_grounding_mention_id = [];
  evidence = citation ∷ [];
}

abbrev authority : Text → Bool → EntityAuthority
authority id known = record { entity_id = id; known = known }

abbrev snapshot : ReadSnapshot
snapshot = record {
  entities = authority (bytes "zoe") true ∷ authority (bytes "ada") true ∷ [];
  observations = reading ∷ [];
  coverage = [];
}

abbrev read_candidate : StateCandidate
read_candidate = record {
  key = record { subject = entity_term (bytes "ada") []; predicate = bytes "role" };
  value = text_term (bytes "engineer");
  observation = ada_works;
  subject_grounding_mention_id = bytes "m1";
  object_grounding_mention_id = [];
}

read : candidate_from_read_observation reading ≡ ok read_candidate
unfolding candidate_from_read_observation resolved_term_matches_source canonical_resolved_term
    trim_space bytes matches_source list_cmp compare_terms kind term_payload new_state_key
    validate_state_key
read = refl

candidate_from_read_observation-eq-ok_example :
    (read_candidate.observation ≡ reading.observation)
    × (candidate_matches_observation read_candidate ≡ ok tt)
candidate_from_read_observation-eq-ok_example =
    candidate_from_read_observation-eq-ok reading read_candidate read

abbrev sample_index : ProjectionIndex
sample_index = record {
  contributions =
      (
        bytes "o1",
        record {
          observation_id = bytes "o1";
          status = status_observed;
          valid_time = interval (some (moment 1000)) none;
          recorded_at = moment 9000;
          derivation = ada_works.derivation;
          subject_grounding_mention_id = bytes "m1";
          object_grounding_mention_id = [];
        },
      )
      ∷ [];
  citations = ((bytes "e1", evidence_supporting), citation) ∷ [];
}

indexed : index_snapshot role_query.entity_ids snapshot ≡ ok (read_candidate ∷ [], sample_index)
unfolding index_snapshot read_observations read_observation admit_candidate state_candidates_equal
    contribution_from_read_observation index_observation_evidence index_citations citations_equal
    citation_metadata_equal citation_valid validate_coverage_reasons coverage_reason_valid
    validate_snapshot_authority check_entities collect_authorities known_conflicts
    candidate_from_read_observation resolved_term_matches_source canonical_resolved_term trim_space
    bytes matches_source list_cmp pair_cmp compare_terms kind term_payload new_state_key
    validate_state_key find store member add any all role_valid status_valid sort_on add_all
indexed = refl

abbrev cited_role : CitedFact
cited_role = record {
  key = read_candidate.key;
  value = text_term (bytes "engineer");
  contributions = map (λ e. e.1) sample_index.contributions;
  supporting_citations = citation ∷ [];
  contradicting_citations = [];
}

abbrev role_fact : Fact
role_fact = record {
  key = read_candidate.key;
  value = text_term (bytes "engineer");
  observation_ids = bytes "o1" ∷ [];
  supporting_evidence_ids = bytes "e1" ∷ [];
  contradicting_evidence_ids = [];
}

projected : project_fact role_fact sample_index ≡ ok cited_role
unfolding project_fact project_contributions find list_cmp bytes project_citations pair_cmp
projected = refl

project_fact-eq-ok_example : Projects role_fact cited_role
project_fact-eq-ok_example =
    project_fact-eq-ok role_query.entity_ids snapshot (read_candidate ∷ []) sample_index role_fact
      cited_role indexed projected

validate_snapshot_authority_iff_example :
    (validate_snapshot_authority role_query.entity_ids snapshot.entities ≡ ok tt) ↔ (
      (authorities_fit role_query.entity_ids snapshot.entities []
        && all_known role_query.entity_ids (entries snapshot.entities))
      ≡ true)
validate_snapshot_authority_iff_example =
    validate_snapshot_authority_iff role_query.entity_ids snapshot.entities

abbrev zoe_unknown : List EntityAuthority
zoe_unknown = authority (bytes "ada") true ∷ authority (bytes "zoe") false ∷ []

listed : authorities_fit role_query.entity_ids zoe_unknown [] ≡ true
unfolding all trim_space bytes member list_cmp
listed = refl

covered : all (λ id. is_some (find id (entries zoe_unknown))) role_query.entity_ids ≡ true
unfolding all find list_cmp bytes
covered = refl

unknown : all_known role_query.entity_ids (entries zoe_unknown) ≡ false
unfolding all find list_cmp bytes
unknown = refl

validate_snapshot_authority-unknown_example :
    validate_snapshot_authority role_query.entity_ids zoe_unknown ≡ err "query entity not found"
validate_snapshot_authority-unknown_example =
    validate_snapshot_authority-unknown role_query.entity_ids zoe_unknown listed covered unknown

abbrev zoe_gap : Gap
zoe_gap = (bytes "zoe", (gap_no_evidence, ([], [])))

gaps :
    project_state_gaps role_query.entity_ids snapshot
      (read_candidate ∷ [])
      (engineer_summary whole_window ∷ [])
      (some whole_window)
    ≡ ok (zoe_gap ∷ [])
unfolding project_state_gaps state_gap_material add_no_evidence add_gap_entities add_summaries
    add_state_summary_material add_unresolved_material add_fact_material add_valid_time_gaps
    add_candidate_gaps add_entity_gaps state_entity_ids add_coverage_gaps
    definitely_outside_selection outside_window bounds_outside outside_point point_inside_extent
    kind bytes list_cmp pair_cmp any member add sort_on validate_coverage_reasons bounds add_all
gaps = refl

named : is_empty (bytes "zoe") ≡ false
unfolding bytes
named = refl

project_state_gaps-lacks_example :
    any (λ g. same g.0 (bytes "zoe") && lacks_evidence g) (zoe_gap ∷ []) ≡ (
      member (bytes "zoe") role_query.entity_ids
      && not (
          any (has_material (bytes "zoe")) (engineer_summary whole_window ∷ [])
          || any (withheld (bytes "zoe") (some whole_window)) snapshot.coverage
          || any
              (λ s. any (excluded (bytes "zoe") s.selection) (read_candidate ∷ []))
              (engineer_summary whole_window ∷ [])))
project_state_gaps-lacks_example =
    project_state_gaps-lacks role_query.entity_ids snapshot (read_candidate ∷ [])
      (engineer_summary whole_window ∷ []) (some whole_window) (zoe_gap ∷ []) (bytes "zoe") gaps
      named

abbrev role_summary : Summary
role_summary = record { selection = whole_window; facts = role_fact ∷ []; unresolved = [] }

summarized : aggregate_window whole_window everything_known (read_candidate ∷ []) ≡ ok role_summary
unfolding aggregation
summarized = refl

project_facts-aggregate_window_example :
    (cited : List CitedFact) × (project_facts role_summary.facts sample_index ≡ ok cited)
project_facts-aggregate_window_example =
    project_facts-aggregate_window role_query.entity_ids snapshot (read_candidate ∷ []) sample_index
      whole_window everything_known role_summary indexed summarized
