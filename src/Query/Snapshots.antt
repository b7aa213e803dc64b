-- ===== src/Query/Snapshots.antt =====
-- internal/query/contract.go, result.go and projection.go: what a reader returns, and the index
-- that is made of it. An error of `projectionFailure` is named by its reason, here and in the
-- modules on the projection.
use stacks.Base.{Bool, List, Text, bytes, text_order, pair_order, list_order}
use stacks.Encodings.Ints.{ℤ}
use stacks.Timepoint.{Time}
use stacks.Observation.Terms.{Term}
use stacks.Observation.Extents.{TemporalExtent}
use stacks.Observation.Digests.{Derivation}
use stacks.Observation.Claims.{Observation}

pub record EntityAuthority : Type 0 where
  pub entity_id : Text
  pub known : Bool

abbrev pub coverage_unresolved_mention : Text
coverage_unresolved_mention = bytes "unresolved-mention"

abbrev pub coverage_authority_excluded : Text
coverage_authority_excluded = bytes "authority-excluded"

abbrev pub coverage_entity_filtered : Text
coverage_entity_filtered = bytes "entity-filtered"

abbrev pub coverage_predicate_filtered : Text
coverage_predicate_filtered = bytes "predicate-filtered"

pub record Coverage : Type 0 where
  pub reason : Text
  pub entity_id : Text
  pub predicate : Text
  pub observation_id : Text
  pub valid_time : TemporalExtent

pub record Citation : Type 0 where
  pub evidence_id : Text
  pub role : Text
  pub source_document_id : Text
  pub document_version_id : Text
  pub section_id : Text
  pub section_title : Text
  pub section_path : List Text
  pub section_order : ℤ
  pub section_role : Text
  pub start_offset : ℤ
  pub end_offset : ℤ
  pub locator : Text
  pub text : Text

pub record ReadObservation : Type 0 where
  pub observation : Observation
  pub subject : Term
  pub object : Term
  pub subject_grounding_mention_id : Text
  pub object_grounding_mention_id : Text
  pub evidence : List Citation

pub record ReadSnapshot : Type 0 where
  pub entities : List EntityAuthority
  pub observations : List ReadObservation
  pub coverage : List Coverage

pub record Contribution : Type 0 where
  pub observation_id : Text
  pub status : Text
  pub valid_time : TemporalExtent
  pub recorded_at : Time
  pub derivation : Derivation
  pub subject_grounding_mention_id : Text
  pub object_grounding_mention_id : Text

-- The key of a citation: the evidence and its role.
abbrev pub CitationKey : Type 0
CitationKey = Text × Text

abbrev pub citation_key : Citation → CitationKey
citation_key citation = (citation.evidence_id, citation.role)

pub record ProjectionIndex : Type 0 where
  pub contributions : List (Text × Contribution)
  pub citations : List (CitationKey × Citation)
