-- ===== src/Admission.antt =====
-- core/admission/admission.go, and core/internal/reasoncode: admission decisions and their reason
-- codes. The types that are strings in the source are texts here.
use stacks.Base.{
  ℕ, Bool, not, ◌||◌, List, [], ◌∷◌, Text, bytes, is_empty, trim_space, same, text_order, ltb,
  Result, ok, refuse, wrap, ◌>>=◌, ◌>>◌,
}
use stacks.Timepoint.{Time, is_zero, normalize}
use stacks.CanonicalHash.{string, time, new, sum}
use stacks.Encodings.Utf8.{rune_count}
use stacks.Evidence.Contents.{ContentDigest}
pub mod Accepted

abbrev pub maximum_runes : ℕ
maximum_runes = 128

-- `reasoncode.Validate`
unfoldable pub validate_reason_code : Text → Result Text
validate_reason_code value = do
  refuse (is_empty (trim_space value)) "reason code is required"
  refuse (ltb maximum_runes (rune_count value)) "reason code must not exceed %d Unicode runes"
  ok value

abbrev pub decision_digest_version : Text
decision_digest_version = bytes "stacks.admission-decision.v1.canonical"

abbrev pub target_extraction_run : Text
target_extraction_run = bytes "extraction_run"

abbrev pub target_mention : Text
target_mention = bytes "mention"

abbrev pub target_observation : Text
target_observation = bytes "observation"

abbrev pub target_identity_decision : Text
target_identity_decision = bytes "identity_decision"

abbrev pub admitted : Text
admitted = bytes "admitted"

abbrev pub quarantined : Text
quarantined = bytes "quarantined"

abbrev pub retired : Text
retired = bytes "retired"

abbrev pub authority_automatic : Text
authority_automatic = bytes "automatic"

abbrev pub authority_reviewer : Text
authority_reviewer = bytes "reviewer"

abbrev pub authority_policy : Text
authority_policy = bytes "policy"

pub record DecisionInput : Type 0 where
  pub id : Text
  pub target_kind : Text
  pub target_id : Text
  pub outcome : Text
  pub reason_code : Text
  pub authority : Text
  pub recorded_at : Time
  pub supersedes_id : Text

-- The fields of a decision, with its digest.
pub record Decision : Type 0 where
  pub content : DecisionInput
  pub open content use *
  pub digest : ContentDigest

-- `TargetKind.valid`
unfoldable pub target_kind_valid : Text → Bool
target_kind_valid value =
    same value target_extraction_run
    || same value target_mention
    || same value target_observation
    || same value target_identity_decision

-- `Outcome.valid`
unfoldable pub outcome_valid : Text → Bool
outcome_valid value = same value admitted || same value quarantined || same value retired

-- `Authority.valid`
unfoldable pub authority_valid : Text → Bool
authority_valid value =
    same value authority_automatic || same value authority_reviewer || same value authority_policy

unfoldable pub digest_decision : (Text → Text) → DecisionInput → ContentDigest
digest_decision sha256 value = sum sha256 (
    new decision_digest_version (
      time value.recorded_at
      ∷ string value.target_kind
      ∷ string value.target_id
      ∷ string value.outcome
      ∷ string value.authority
      ∷ string value.reason_code
      ∷ string value.supersedes_id
      ∷ []))

-- `NewDecision`, for a SHA-256 function.
unfoldable pub new_decision : (Text → Text) → DecisionInput → Result Decision
new_decision sha256 input = do
  let id = trim_space input.id
  refuse (is_empty id) "admission decision ID is required"
  refuse (not (target_kind_valid input.target_kind)) "admission target kind is invalid"
  let target_id = trim_space input.target_id
  refuse (is_empty target_id) "admission target ID is required"
  refuse (not (outcome_valid input.outcome)) "admission outcome is invalid"
  reason_code ← wrap "admission decision: %w" (validate_reason_code input.reason_code)
  refuse (not (authority_valid input.authority)) "admission authority is invalid"
  refuse (is_zero input.recorded_at) "admission recorded time is required"
  let supersedes_id = trim_space input.supersedes_id
  refuse (same supersedes_id id) "admission decision cannot supersede itself"
  let value : DecisionInput = record {
    id = id;
    target_kind = input.target_kind;
    target_id = target_id;
    outcome = input.outcome;
    reason_code = reason_code;
    authority = input.authority;
    recorded_at = normalize input.recorded_at;
    supersedes_id = supersedes_id;
  }
  ok (record { content = value; digest = digest_decision sha256 value })
