-- ===== src/Query/Indexing.antt =====
-- internal/query/projection.go: the index of a snapshot, and the checks of what it cites.
use stacks.Base.{
  Bool, false, not, ◌&&◌, ◌||◌, List, [], ◌∷◌, ◌++◌, map, Option, none, some, Text, is_empty,
  trim_space, same, text_order, pair_order, list_order, member, add, add_all, find, store, any, all,
  is_eq, Result, ok, refuse, ◌>>=◌, ◌>>◌,
}
use stacks.Encodings.Ints.{ℤ, negative, less}
use stacks.Observation.Digests.{EvidenceLink}
use stacks.Observation.Claims.{Observation, role_valid, link_key}
use stacks.Temporal.Terms.{StateCandidate, compare_terms, compare_state_keys}
use stacks.Temporal.Aggregation.{observations_equal}
use stacks.Query.Snapshots.{
  Coverage, Citation, ReadObservation, ReadSnapshot, Contribution, CitationKey, citation_key,
  ProjectionIndex, coverage_unresolved_mention, coverage_authority_excluded,
  coverage_entity_filtered, coverage_predicate_filtered,
}
use stacks.Query.Authority.{validate_snapshot_authority}
use stacks.Query.Resolved.{candidate_from_read_observation}

-- `validateCitation`; both of its errors are replaced by its caller.
unfoldable pub citation_valid : Citation → Bool
citation_valid value =
    not (
      is_empty (trim_space value.evidence_id)
      || not (role_valid value.role)
      || is_empty (trim_space value.source_document_id)
      || is_empty (trim_space value.document_version_id)
      || is_empty (trim_space value.section_id)
      || is_empty (trim_space value.section_title)
      || negative value.section_order
      || is_empty (trim_space value.section_role)
      || negative value.start_offset
      || not (less value.start_offset value.end_offset))
    && all (λ title. not (is_empty (trim_space title))) value.section_path

abbrev int_equal : ℤ → ℤ → Bool
int_equal a b = not (less a b) && not (less b a)

-- `citationMetadataEqual`: all fields but the role.
unfoldable pub citation_metadata_equal : Citation → Citation → Bool
citation_metadata_equal left right =
    same left.evidence_id right.evidence_id
    && same left.source_document_id right.source_document_id
    && same left.document_version_id right.document_version_id
    && same left.section_id right.section_id
    && same left.section_title right.section_title
    && same left.section_path right.section_path
    && int_equal left.section_order right.section_order
    && same left.section_role right.section_role
    && int_equal left.start_offset right.start_offset
    && int_equal left.end_offset right.end_offset
    && same left.locator right.locator
    && same left.text right.text

unfoldable pub citations_equal : Citation → Citation → Bool
citations_equal left right = same left.role right.role && citation_metadata_equal left right

-- `prior, exists := m[key]; exists && !equal(prior, citation)`
abbrev pub differs : (Citation → Citation → Bool) → Option Citation → Citation → Bool
differs equal none citation = false
differs equal (some prior) citation = not (equal prior citation)

-- The index, the metadata by evidence, and the citations of the item so far.
pub record Indexing : Type 0 where
  pub index : ProjectionIndex
  pub metadata : List (Text × Citation)
  pub item_citations : List CitationKey

-- The loop over the citations of an item.
unfoldable pub index_citations : List CitationKey → List Citation → Indexing → Result Indexing
index_citations links [] s = ok s
index_citations links (citation ∷ citations) s = do
  refuse (not (citation_valid citation)) "citation metadata is invalid"
  let key = citation_key citation
  refuse (not (member key links)) "citation role does not match observation evidence"
  refuse (differs citation_metadata_equal (find citation.evidence_id s.metadata) citation)
      "evidence metadata conflicts"
  refuse (differs citations_equal (find key s.index.citations) citation)
      "evidence metadata conflicts"
  index_citations links citations (record {
    index = record s.index { citations = store key citation s.index.citations };
    metadata = store citation.evidence_id citation s.metadata;
    item_citations = add key s.item_citations;
  })

-- `links`, the set of the keys of an observation's evidence.
abbrev pub link_keys : List EvidenceLink → List CitationKey
link_keys links = add_all (map link_key links) []

unfoldable pub index_observation_evidence :
    ReadObservation → ProjectionIndex → List (Text × Citation) → Result Indexing
index_observation_evidence item index metadata = do
  let links = link_keys item.observation.evidence
  s ←
      index_citations links item.evidence
        (record { index = index; metadata = metadata; item_citations = [] })
  refuse (any (λ key. not (member key s.item_citations)) links) "observation evidence is missing"
  ok s

unfoldable pub contribution_from_read_observation : ReadObservation → Contribution
contribution_from_read_observation item = record {
  observation_id = item.observation.id;
  status = item.observation.status;
  valid_time = item.observation.valid_time;
  recorded_at = item.observation.recorded_at;
  derivation = item.observation.derivation;
  subject_grounding_mention_id = item.subject_grounding_mention_id;
  object_grounding_mention_id = item.object_grounding_mention_id;
}

-- `canonicalObservationsEqual` compares the fields that `observationsEqual` of core/temporal does.
abbrev canonical_observations_equal : Observation → Observation → Bool
canonical_observations_equal = observations_equal

unfoldable pub state_candidates_equal : StateCandidate → StateCandidate → Bool
state_candidates_equal left right =
    is_eq (compare_state_keys left.key right.key)
    && is_eq (compare_terms left.value right.value)
    && same left.subject_grounding_mention_id right.subject_grounding_mention_id
    && same left.object_grounding_mention_id right.object_grounding_mention_id

-- The variables of the loop over the observations of a snapshot.
pub record Reading : Type 0 where
  pub index : ProjectionIndex
  pub metadata : List (Text × Citation)
  pub seen : List (Text × StateCandidate)
  pub candidates : List StateCandidate

-- The end of a round: a first candidate of an observation is kept, a later one must be the same.
unfoldable pub admit_candidate :
    Option StateCandidate → ReadObservation → StateCandidate → Reading → Result Reading
admit_candidate none item candidate s = ok (record {
  index = record s.index {
    contributions =
        store item.observation.id (contribution_from_read_observation item) s.index.contributions;
  };
  metadata = s.metadata;
  seen = store item.observation.id candidate s.seen;
  candidates = s.candidates ++ candidate ∷ [];
})
admit_candidate (some prior) item candidate s = do
  refuse (not (canonical_observations_equal prior.observation candidate.observation))
      "observation payload conflicts"
  refuse (not (state_candidates_equal prior candidate)) "observation state mapping conflicts"
  ok s

unfoldable pub read_observation : ReadObservation → Reading → Result Reading
read_observation item s = do
  candidate ← candidate_from_read_observation item
  indexed ← index_observation_evidence item s.index s.metadata
  admit_candidate (find item.observation.id s.seen) item candidate
      (record s { index = indexed.index; metadata = indexed.metadata })

unfoldable pub read_observations : List ReadObservation → Reading → Result Reading
read_observations [] s = ok s
read_observations (item ∷ items) s = do next ← read_observation item s; read_observations items next

unfoldable pub coverage_reason_valid : Text → Bool
coverage_reason_valid reason =
    same reason coverage_unresolved_mention
    || same reason coverage_authority_excluded
    || same reason coverage_entity_filtered
    || same reason coverage_predicate_filtered

unfoldable pub validate_coverage_reasons : List Coverage → Result (Unit {0})
validate_coverage_reasons [] = ok tt
validate_coverage_reasons (coverage ∷ rest) = do
  refuse (not (coverage_reason_valid coverage.reason)) "coverage reason is invalid"
  validate_coverage_reasons rest

unfoldable pub index_snapshot :
    List Text → ReadSnapshot → Result (List StateCandidate × ProjectionIndex)
index_snapshot entity_ids snapshot = do
  validate_snapshot_authority entity_ids snapshot.entities
  s ← read_observations snapshot.observations (record {
    index = record { contributions = []; citations = [] };
    metadata = [];
    seen = [];
    candidates = [];
  })
  validate_coverage_reasons snapshot.coverage
  ok (s.candidates, s.index)
