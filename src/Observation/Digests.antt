-- ===== src/Observation/Digests.antt =====
-- core/observation/digest.go, and the fields of an observation that its digest covers.
use stacks.Base.{true, false, List, [], ◌∷◌, ◌++◌, Option, none, some, Text, bytes, length}
use stacks.Timepoint.{Time}
use stacks.CanonicalHash.{Field, string, uint64, bool, time, new, sum}
use stacks.Observation.Terms.{Term, absent, text_term, mention_term, entity_term, kind}
use stacks.Observation.Extents.{TemporalExtent, extent_kind, instant_of, bounds}
use stacks.Observation.Confidences.{Confidence}

pub record Statement : Type 0 where
  pub subject : Term
  pub predicate : Text
  pub object : Term

pub record EvidenceLink : Type 0 where
  pub evidence_id : Text
  pub role : Text

pub record Derivation : Type 0 where
  pub method : Text
  pub version : Text
  pub run_id : Text
  pub model : Text
  pub prompt_version : Text

-- All fields of an observation but its identifier and its digest; `confidence` stands for
-- `confidence` and `hasConfidence`.
pub record Content : Type 0 where
  pub statement : Statement
  pub valid_time : TemporalExtent
  pub recorded_at : Time
  pub evidence : List EvidenceLink
  pub derivation : Derivation
  pub status : Text
  pub confidence : Option Confidence

-- `encoder.String` of the four texts of a term.
unfoldable pub term_texts : Term → List Field
term_texts absent = string [] ∷ string [] ∷ string [] ∷ string [] ∷ []
term_texts (text_term text) = string text ∷ string [] ∷ string [] ∷ string [] ∷ []
term_texts (mention_term id) = string [] ∷ string id ∷ string [] ∷ string [] ∷ []
term_texts (entity_term id grounding) = string [] ∷ string [] ∷ string id ∷ string grounding ∷ []

unfoldable pub write_term : Term → List Field
write_term term = uint64 (kind term) ∷ term_texts term

-- `Bool(has)`, and the time if there is one.
unfoldable pub write_bound : Option Time → List Field
write_bound none = bool false ∷ []
write_bound (some t) = bool true ∷ time t ∷ []

-- The fields `start` and `end` of an extent, which an instant has in `start`.
unfoldable pub stored_bounds : TemporalExtent → Option Time × Option Time
stored_bounds extent = elim (instant_of extent) [ some t ↦ (some t, none) | none ↦ bounds extent ]

unfoldable pub write_temporal_extent : TemporalExtent → List Field
write_temporal_extent extent =
    uint64 (extent_kind extent) ∷ write_bound (stored_bounds extent).0
    ++ write_bound (stored_bounds extent).1

unfoldable pub write_links : List EvidenceLink → List Field
write_links [] = []
write_links (link ∷ links) = string link.evidence_id ∷ string link.role ∷ write_links links

unfoldable pub write_confidence : Option Confidence → List Field
write_confidence none = bool false ∷ []
write_confidence (some c) = bool true ∷ uint64 c.value ∷ string c.scale ∷ []

abbrev pub observation_digest_version : Text
observation_digest_version = bytes "stacks.observation.v2.canonical"

-- The fields that `digestObservation` appends, in its order.
unfoldable pub observation_fields : Content → List Field
observation_fields value = new observation_digest_version (
    write_term value.statement.subject
    ++ (string value.statement.predicate ∷ write_term value.statement.object
        ++ (write_temporal_extent value.valid_time
            ++ (time value.recorded_at ∷ uint64 (length value.evidence) ∷ write_links value.evidence
                ++ (string value.derivation.method
                      ∷ string value.derivation.version
                      ∷ string value.derivation.run_id
                      ∷ string value.derivation.model
                      ∷ string value.derivation.prompt_version
                      ∷ bool false
                      ∷ string value.status
                      ∷ write_confidence value.confidence
                    ++ (bool false ∷ []))))))

unfoldable pub digest_observation : (Text → Text) → Content → Text
digest_observation sha256 value = sum sha256 (observation_fields value)
