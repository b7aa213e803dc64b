-- ===== src/Identity/Records.antt =====
-- core/identity/authority.go: the constructors of identity authority. Each type of input has the
-- fields of the value that is constructed.
use stacks.Base.{
  false, true, Bool, ◌&&◌, not, ◌||◌, List, [], ◌∷◌, Text, bytes, is_empty, trim_space, same,
  text_order, member, add, Result, ok, refuse, wrap, ◌>>=◌, ◌>>◌,
}
use stacks.Timepoint.{Time, is_zero, normalize}
use stacks.CanonicalHash.{string, time, new, sum}
use stacks.Encodings.Ints.{ℤ, not_positive}
use stacks.Evidence.Contents.{ContentDigest}
use stacks.Admission.{validate_reason_code}
use stacks.Observation.Confidences.{Float64, in_unit_interval}
use stacks.Identity.Names.{TextRules, valid_email}
use stacks.Identity.Values.{
  Alias, kind_person, alias_type_name, alias_type_email, required_entity_id, required_mention_id,
  required_proposal_id, required_candidate_id, required_decision_id, required_evidence_id,
}

pub record Entity : Type 0 where
  pub id : Text
  pub kind : Text
  pub display_name : Text
  pub recorded_at : Time

unfoldable pub new_entity : Entity → Result Entity
new_entity input = do
  id ← required_entity_id input.id
  refuse (not (same input.kind kind_person)) "entity kind is invalid"
  refuse (is_empty (trim_space input.display_name)) "entity display name is required"
  refuse (is_zero input.recorded_at) "entity recorded time is required"
  ok (record input { id = id; recorded_at = normalize input.recorded_at })

pub record MentionRecord : Type 0 where
  pub id : Text
  pub evidence_id : Text
  pub derivation_run_id : Text
  pub surface : Text
  pub normalized_name : Text
  pub proposed_email : Text
  pub proposed_email_evidence_id : Text
  pub role : Text
  pub recorded_at : Time

unfoldable pub new_mention : TextRules → MentionRecord → Result MentionRecord
new_mention rules input = do
  id ← required_mention_id input.id
  evidence_id ← required_evidence_id input.evidence_id
  let derivation_run_id = trim_space input.derivation_run_id
  refuse (is_empty derivation_run_id) "mention derivation run ID is required"
  refuse (is_empty (trim_space input.surface)) "mention surface is required"
  refuse (is_empty (trim_space input.normalized_name)) "mention normalized name is required"
  refuse (is_empty (trim_space input.role)) "mention role is required"
  refuse (is_zero input.recorded_at) "mention recorded time is required"
  let email_evidence_id = trim_space input.proposed_email_evidence_id
  refuse (is_empty input.proposed_email && not (is_empty email_evidence_id))
      "mention proposed email evidence requires a proposed email"
  refuse (not (is_empty input.proposed_email) && is_empty email_evidence_id)
      "mention proposed email evidence is required"
  refuse (not (is_empty input.proposed_email) && not (valid_email rules input.proposed_email))
      "mention proposed email is invalid"
  ok (record {
    id = id;
    evidence_id = evidence_id;
    derivation_run_id = derivation_run_id;
    surface = input.surface;
    normalized_name = input.normalized_name;
    proposed_email = input.proposed_email;
    proposed_email_evidence_id = email_evidence_id;
    role = input.role;
    recorded_at = normalize input.recorded_at;
  })

pub record ResolutionProposal : Type 0 where
  pub id : Text
  pub mention_id : Text
  pub reason_code : Text
  pub evidence_ids : List Text
  pub recorded_at : Time

-- The loop over the evidence of a proposal.
unfoldable pub collect_evidence_ids : List Text → List Text → Result (List Text)
collect_evidence_ids [] seen = ok []
collect_evidence_ids (input_id ∷ rest) seen = do
  evidence_id ← required_evidence_id input_id
  refuse (member evidence_id seen) "resolution proposal evidence IDs must be unique"
  evidence_ids ← collect_evidence_ids rest (add evidence_id seen)
  ok (evidence_id ∷ evidence_ids)

abbrev pub no_texts : List Text → Bool
no_texts [] = true
no_texts (text ∷ texts) = false

unfoldable pub new_resolution_proposal : ResolutionProposal → Result ResolutionProposal
new_resolution_proposal input = do
  id ← required_proposal_id input.id
  mention_id ← required_mention_id input.mention_id
  reason_code ← wrap "resolution proposal: %w" (validate_reason_code input.reason_code)
  refuse (no_texts input.evidence_ids) "resolution proposal evidence is required"
  evidence_ids ← collect_evidence_ids input.evidence_ids []
  refuse (is_zero input.recorded_at) "resolution proposal recorded time is required"
  ok (record {
    id = id;
    mention_id = mention_id;
    reason_code = reason_code;
    evidence_ids = evidence_ids;
    recorded_at = normalize input.recorded_at;
  })

pub record CandidateSource : Type 0 where
  pub kind : Text
  pub reference : Text

pub record ResolutionCandidate : Type 0 where
  pub id : Text
  pub proposal_id : Text
  pub entity_id : Text
  pub rank : ℤ
  pub confidence : Float64
  pub reason_code : Text
  pub source : CandidateSource
  pub recorded_at : Time

unfoldable pub new_resolution_candidate : ResolutionCandidate → Result ResolutionCandidate
new_resolution_candidate input = do
  id ← required_candidate_id input.id
  proposal_id ← required_proposal_id input.proposal_id
  entity_id ← required_entity_id input.entity_id
  refuse (not_positive input.rank) "resolution candidate rank must be positive"
  refuse (not (in_unit_interval input.confidence))
      "resolution candidate confidence must be finite and within the unit interval"
  reason_code ← wrap "resolution candidate: %w" (validate_reason_code input.reason_code)
  let source : CandidateSource = record {
    kind = trim_space input.source.kind;
    reference = trim_space input.source.reference;
  }
  refuse (is_empty source.kind || is_empty source.reference)
      "resolution candidate source is required"
  refuse (is_zero input.recorded_at) "resolution candidate recorded time is required"
  ok (record {
    id = id;
    proposal_id = proposal_id;
    entity_id = entity_id;
    rank = input.rank;
    confidence = input.confidence;
    reason_code = reason_code;
    source = source;
    recorded_at = normalize input.recorded_at;
  })

abbrev pub resolution_decision_digest_version : Text
resolution_decision_digest_version = bytes "stacks.identity-resolution-decision.v1.canonical"

abbrev pub decision_accepted : Text
decision_accepted = bytes "accepted"

abbrev pub decision_rejected : Text
decision_rejected = bytes "rejected"

abbrev pub authority_automatic : Text
authority_automatic = bytes "automatic"

abbrev pub authority_reviewer : Text
authority_reviewer = bytes "reviewer"

pub record ResolutionDecisionInput : Type 0 where
  pub id : Text
  pub proposal_id : Text
  pub outcome : Text
  pub entity_id : Text
  pub authority : Text
  pub reason_code : Text
  pub recorded_at : Time
  pub supersedes_id : Text

-- The fields of a decision, with its digest.
pub record ResolutionDecision : Type 0 where
  pub content : ResolutionDecisionInput
  pub open content use *
  pub digest : ContentDigest

unfoldable pub digest_resolution_decision : (Text → Text) → ResolutionDecisionInput → ContentDigest
digest_resolution_decision sha256 value = sum sha256 (
    new resolution_decision_digest_version (
      time value.recorded_at
      ∷ string value.proposal_id
      ∷ string value.outcome
      ∷ string value.authority
      ∷ string value.reason_code
      ∷ string value.entity_id
      ∷ string value.supersedes_id
      ∷ []))

-- `NewResolutionDecision`, for a SHA-256 function.
unfoldable pub new_resolution_decision :
    (Text → Text) → ResolutionDecisionInput → Result ResolutionDecision
new_resolution_decision sha256 input = do
  id ← required_decision_id input.id
  proposal_id ← required_proposal_id input.proposal_id
  refuse (not (same input.outcome decision_accepted) && not (same input.outcome decision_rejected))
      "resolution decision outcome is invalid"
  let entity_id = trim_space input.entity_id
  refuse (same input.outcome decision_accepted && is_empty entity_id)
      "accepted resolution decision requires an entity"
  refuse (same input.outcome decision_rejected && not (is_empty entity_id))
      "rejected resolution decision cannot name an entity"
  refuse
      (not (same input.authority authority_automatic)
        && not (same input.authority authority_reviewer))
      "resolution decision authority is invalid"
  reason_code ← wrap "resolution decision: %w" (validate_reason_code input.reason_code)
  refuse (is_zero input.recorded_at) "resolution decision recorded time is required"
  let supersedes_id = trim_space input.supersedes_id
  refuse (same supersedes_id id) "resolution decision cannot supersede itself"
  let value : ResolutionDecisionInput = record {
    id = id;
    proposal_id = proposal_id;
    outcome = input.outcome;
    entity_id = entity_id;
    authority = input.authority;
    reason_code = reason_code;
    recorded_at = normalize input.recorded_at;
    supersedes_id = supersedes_id;
  }
  ok (record { content = value; digest = digest_resolution_decision sha256 value })

pub record AliasAssertion : Type 0 where
  pub id : Text
  pub decision_id : Text
  pub entity_id : Text
  pub alias : Alias
  pub recorded_at : Time

unfoldable pub new_alias_assertion : TextRules → AliasAssertion → Result AliasAssertion
new_alias_assertion rules input = do
  let id = trim_space input.id
  refuse (is_empty id) "alias assertion ID is required"
  decision_id ← required_decision_id input.decision_id
  entity_id ← required_entity_id input.entity_id
  refuse
      (not (same input.alias.alias_type alias_type_name)
        && not (same input.alias.alias_type alias_type_email))
      "alias assertion type is invalid"
  refuse (is_empty (trim_space input.alias.value)) "alias assertion value is required"
  refuse (same input.alias.alias_type alias_type_email && not (valid_email rules input.alias.value))
      "alias assertion email is invalid"
  refuse (is_zero input.recorded_at) "alias assertion recorded time is required"
  ok (record {
    id = id;
    decision_id = decision_id;
    entity_id = entity_id;
    alias = input.alias;
    recorded_at = normalize input.recorded_at;
  })
