-- ===== src/Observation/Claims.antt =====
-- core/observation/observation.go: the observation and its constructor. The types that are
-- strings in the source (identifiers, statuses, roles, predicates) are texts here.
use stacks.Base.{
  Bool, not, ◌&&◌, ◌||◌, List, [], ◌∷◌, Option, none, some, Text, bytes, is_empty, trim_space, same,
  text_order, pair_order, member, add, sort_on, Result, ok, err, refuse, ◌>>=◌, ◌>>◌, if◌then◌else◌,
}
use stacks.Timepoint.{Time, is_zero, normalize}
use stacks.Observation.Extents.{TemporalExtent}
use stacks.Observation.Confidences.{Confidence, validate_confidence}
use stacks.Observation.Digests.{Content, Statement, EvidenceLink, Derivation, digest_observation}

abbrev pub status_observed : Text
status_observed = bytes "observed"

abbrev pub status_inferred : Text
status_inferred = bytes "inferred"

abbrev pub status_hypothesized : Text
status_hypothesized = bytes "hypothesized"

abbrev pub status_validated_structurally : Text
status_validated_structurally = bytes "validated_structurally"

abbrev pub status_validated_empirically : Text
status_validated_empirically = bytes "validated_empirically"

abbrev pub status_rejected : Text
status_rejected = bytes "rejected"

abbrev pub evidence_supporting : Text
evidence_supporting = bytes "supporting"

abbrev pub evidence_contradicting : Text
evidence_contradicting = bytes "contradicting"

unfoldable pub status_valid : Text → Bool
status_valid status =
    same status status_observed
    || same status status_inferred
    || same status status_hypothesized
    || same status status_validated_structurally
    || same status status_validated_empirically
    || same status status_rejected

unfoldable pub role_valid : Text → Bool
role_valid role = same role evidence_supporting || same role evidence_contradicting

unfoldable pub new_predicate : Text → Result Text
new_predicate value = do
  refuse (is_empty (trim_space value)) "observation predicate is required"
  ok value

pub record ObservationInput : Type 0 where
  pub id : Text
  pub statement : Statement
  pub valid_time : TemporalExtent
  pub recorded_at : Time
  pub evidence : List EvidenceLink
  pub derivation : Derivation
  pub status : Text
  pub confidence : Option Confidence

pub record Observation : Type 0 where
  pub id : Text
  pub content : Content
  pub open content use *
  pub digest : Text

-- The order of `sort.Slice` in `normalizeEvidenceLinks`, and the key of its `seen`.
abbrev pub link_key : EvidenceLink → Text × Text
link_key link = (link.evidence_id, link.role)

-- The loop of `normalizeEvidenceLinks`.
unfoldable pub collect_links : List EvidenceLink → List (Text × Text) → Result (List EvidenceLink)
collect_links [] seen = ok []
collect_links (input ∷ rest) seen = do
  let link = record input { evidence_id = trim_space input.evidence_id }
  refuse (is_empty link.evidence_id) "observation evidence ID is required"
  refuse (not (role_valid link.role)) "observation evidence role is invalid"
  refuse (member (link_key link) seen) "observation evidence-role pairs must be unique"
  links ← collect_links rest (add (link_key link) seen)
  ok (link ∷ links)

unfoldable pub normalize_evidence_links : List EvidenceLink → Result (List EvidenceLink)
normalize_evidence_links [] = err "observation evidence is required"
normalize_evidence_links (link ∷ rest) = do
  links ← collect_links (link ∷ rest) []
  ok (sort_on link_key links)

-- `text != "" && strings.TrimSpace(text) == ""`
unfoldable pub only_space : Text → Bool
only_space text = not (is_empty text) && is_empty (trim_space text)

unfoldable pub normalize_derivation : Derivation → Result Derivation
normalize_derivation input = do
  refuse (is_empty (trim_space input.method)) "observation derivation method is required"
  refuse (is_empty (trim_space input.version)) "observation derivation version is required"
  refuse (only_space input.run_id) "observation derivation run ID cannot be whitespace"
  refuse (only_space input.model) "observation model cannot be whitespace"
  refuse (only_space input.prompt_version) "observation prompt version cannot be whitespace"
  refuse
      (if is_empty input.model
        then not (is_empty input.prompt_version)
        else is_empty input.prompt_version)
      "observation model and prompt version must be provided together"
  ok input

-- `if input.Confidence != nil { … }`
unfoldable pub check_confidence : Option Confidence → Result (Option Confidence)
check_confidence none = ok none
check_confidence (some confidence) = do validate_confidence confidence; ok (some confidence)

-- `NewObservation`, for a SHA-256 function.
unfoldable pub new_observation : (Text → Text) → ObservationInput → Result Observation
new_observation sha256 input = do
  let id = trim_space input.id
  refuse (is_empty id) "observation ID is required"
  predicate ← new_predicate input.statement.predicate
  refuse (is_zero input.recorded_at) "observation recorded time is required"
  links ← normalize_evidence_links input.evidence
  derivation ← normalize_derivation input.derivation
  refuse (not (status_valid input.status)) "observation epistemic status is invalid"
  confidence ← check_confidence input.confidence
  let content : Content = record {
    statement = record {
      subject = input.statement.subject;
      predicate = predicate;
      object = input.statement.object;
    };
    valid_time = input.valid_time;
    recorded_at = normalize input.recorded_at;
    evidence = links;
    derivation = derivation;
    status = input.status;
    confidence = confidence;
  }
  ok (record { id = id; content = content; digest = digest_observation sha256 content })
