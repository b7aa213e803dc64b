-- ===== src/Identity/Values.antt =====
-- core/identity/identity.go and authority.go: the types, and the identifiers that are required.
-- The types that are strings in the source are texts here.
use stacks.Base.{Bool, Text, List, bytes, is_empty, trim_space, Result, ok, refuse, ◌>>◌}
use stacks.Timepoint.{Time}
use stacks.Observation.Confidences.{Float64}

abbrev pub kind_person : Text
kind_person = bytes "person"

abbrev pub alias_type_name : Text
alias_type_name = bytes "name"

abbrev pub alias_type_email : Text
alias_type_email = bytes "email"

pub record Alias : Type 0 where
  pub alias_type : Text
  pub value : Text

pub record EntitySnapshot : Type 0 where
  pub id : Text
  pub kind : Text
  pub display_name : Text
  pub recorded_at : Time
  pub aliases : List Alias

pub record Mention : Type 0 where
  pub name : Text
  pub email : Text

pub record Candidate : Type 0 where
  pub entity_id : Text
  pub confidence : Float64
  pub reason : Text

pub record Resolution : Type 0 where
  pub entity_id : Text
  pub auto_resolved : Bool
  pub candidates : List Candidate

unfoldable pub required_entity_id : Text → Result Text
required_entity_id value = do
  refuse (is_empty (trim_space value)) "entity ID is required"
  ok (trim_space value)

unfoldable pub required_mention_id : Text → Result Text
required_mention_id value = do
  refuse (is_empty (trim_space value)) "mention ID is required"
  ok (trim_space value)

unfoldable pub required_proposal_id : Text → Result Text
required_proposal_id value = do
  refuse (is_empty (trim_space value)) "resolution proposal ID is required"
  ok (trim_space value)

unfoldable pub required_candidate_id : Text → Result Text
required_candidate_id value = do
  refuse (is_empty (trim_space value)) "resolution candidate ID is required"
  ok (trim_space value)

unfoldable pub required_decision_id : Text → Result Text
required_decision_id value = do
  refuse (is_empty (trim_space value)) "resolution decision ID is required"
  ok (trim_space value)

unfoldable pub required_evidence_id : Text → Result Text
required_evidence_id value = do
  refuse (is_empty (trim_space value)) "%s is required"
  ok (trim_space value)
