-- ===== src/Temporal/Terms.antt =====
-- core/temporal/state.go: state keys, their canonical order, and how a candidate's terms map to
-- the statement of its observation.
use stacks.Base.{
  ℕ, Ordering, Bool, true, false, not, ◌&&◌, List, [], ◌∷◌, String, Text, is_empty, trim_space,
  same, cmp, nat_order, text_order, pair_order, then_compare, is_eq, Result, ok, err, refuse, ◌>>=◌,
  ◌>>◌, ltb, ◌==◌, if◌then◌else◌,
}
use stacks.Observation.Terms.{Term, absent, text_term, mention_term, entity_term, kind}
use stacks.Observation.Claims.{Observation, new_predicate}
pub mod Order

pub record StateKey : Type 0 where
  pub subject : Term
  pub predicate : Text

pub record StateCandidate : Type 0 where
  pub key : StateKey
  pub value : Term
  pub observation : Observation
  pub subject_grounding_mention_id : Text
  pub object_grounding_mention_id : Text

pub record Fact : Type 0 where
  pub key : StateKey
  pub value : Term
  pub observation_ids : List Text
  pub supporting_evidence_ids : List Text
  pub contradicting_evidence_ids : List Text

unfoldable pub term_payload : Term → Text
term_payload absent = []
term_payload (text_term text) = text
term_payload (mention_term id) = id
term_payload (entity_term id grounding) = id

-- `termIdentity` and `stateKeyIdentity`: the kind and the payload, and the predicate.
abbrev pub TermIdentity : Type 0
TermIdentity = ℕ × Text

abbrev pub StateKeyIdentity : Type 0
StateKeyIdentity = TermIdentity × Text

unfoldable pub identity_for_term : Term → TermIdentity
unfolding kind term_payload
identity_for_term term = (kind term, term_payload term)

unfoldable pub identity_for_state_key : StateKey → StateKeyIdentity
identity_for_state_key key = (identity_for_term key.subject, key.predicate)

-- `CompareTerms` and `CompareStateKeys`, with -1, 0 and 1 as an `Ordering`.
unfoldable pub compare_terms : Term → Term → Ordering
compare_terms left right =
    if not (kind left == kind right)
    then (if ltb (kind left) (kind right) then Ordering.lt else Ordering.gt)
    else cmp (term_payload left) (term_payload right)

unfoldable pub compare_state_keys : StateKey → StateKey → Ordering
compare_state_keys left right =
    then_compare (compare_terms left.subject right.subject) (cmp left.predicate right.predicate)

unfoldable pub validate_term : Term → Result (Unit {0})
validate_term absent = ok tt
validate_term (text_term text) = refuse (is_empty (trim_space text)) "%s text is required"
validate_term (mention_term id) = refuse (is_empty (trim_space id)) "%s mention ID is required"
validate_term (entity_term id grounding) =
    refuse (is_empty (trim_space id)) "%s entity ID is required"

unfoldable pub forbid_mention : Term → Result (Unit {0})
forbid_mention (mention_term id) = err "%s must not retain a source mention"
forbid_mention (entity_term id grounding) =
    refuse (not (is_empty grounding)) "%s entity must not retain grounding mention"
forbid_mention _ = ok tt

unfoldable pub validate_canonical_term : Term → Result (Unit {0})
unfolding validate_term forbid_mention
validate_canonical_term term = do validate_term term; forbid_mention term

unfoldable pub validate_state_key : StateKey → Result (Unit {0})
unfolding validate_canonical_term new_predicate
validate_state_key key = do
  validate_canonical_term key.subject
  _ ← new_predicate key.predicate
  ok tt

unfoldable pub new_state_key : Term → Text → Result StateKey
new_state_key subject predicate = do
  let key : StateKey = record { subject = subject; predicate = predicate }
  validate_state_key key
  ok key

unfoldable pub term_maps_to_state : Term → Term → Text → Bool
term_maps_to_state (entity_term state_id _) (entity_term source_id source_grounding) grounding =
    same state_id source_id && same grounding source_grounding
term_maps_to_state (entity_term _ _) (mention_term source_mention_id) grounding =
    same grounding source_mention_id
term_maps_to_state _ (entity_term _ _) grounding = false
term_maps_to_state _ (mention_term _) grounding = false
term_maps_to_state state source grounding = is_eq (compare_terms state source)

unfoldable pub candidate_matches_observation : StateCandidate → Result (Unit {0})
candidate_matches_observation candidate = do
  validate_state_key candidate.key
  validate_canonical_term candidate.value
  let statement = candidate.observation.statement
  refuse (not (same candidate.key.predicate statement.predicate))
      "state candidate predicate does not match observation statement"
  refuse
      (not (
        term_maps_to_state candidate.key.subject statement.subject
          candidate.subject_grounding_mention_id))
      "state candidate subject does not match observation statement"
  refuse
      (not
        (term_maps_to_state candidate.value statement.object candidate.object_grounding_mention_id))
      "state candidate value does not match observation statement"
