-- ===== src/Query/Resolved.antt =====
-- internal/query/projection.go: the state candidate of an observation that was read.
use stacks.Base.{
  String, Bool, true, false, not, ◌&&◌, ◌||◌, Text, is_empty, trim_space, same, text_order,
  pair_order, list_order, is_eq, Result, ok, err, refuse, ◌>>=◌, ◌>>◌,
}
use stacks.Observation.Terms.{Term, absent, text_term, mention_term, entity_term}
use stacks.Temporal.Terms.{StateCandidate, compare_terms, new_state_key}
use stacks.Query.Snapshots.{ReadObservation}

unfoldable pub canonical_resolved_term : Term → Bool
canonical_resolved_term absent = true
canonical_resolved_term (text_term text) = not (is_empty (trim_space text))
canonical_resolved_term (mention_term id) = false
canonical_resolved_term (entity_term id grounding) =
    not (is_empty (trim_space id)) && is_empty grounding

-- `resolved.Kind() == TermEntity` and its identifier.
abbrev pub entity_is : Term → Text → Bool
entity_is (entity_term id grounding) source_id = same source_id id
entity_is term source_id = false

abbrev pub is_entity : Term → Bool
is_entity (entity_term id grounding) = true
is_entity term = false

-- The cases of the source's kind.
unfoldable pub matches_source : Term → Term → Text → Bool
matches_source resolved (entity_term source_id source_grounding) grounding =
    entity_is resolved source_id && same grounding source_grounding
matches_source resolved (mention_term mention_id) grounding =
    is_entity resolved && same grounding mention_id
matches_source resolved source grounding =
    is_empty grounding && is_eq (compare_terms resolved source)

unfoldable pub resolved_term_matches_source : Term → Term → Text → Bool
resolved_term_matches_source resolved source grounding =
    canonical_resolved_term resolved && matches_source resolved source grounding

-- The result of `NewStateKey`, with the error that replaces its own.
abbrev pub replace_error {ℓ} : {V : Type ℓ} → String → Result V → Result V
replace_error message (err inner) = err message
replace_error message (ok value) = ok value

unfoldable pub candidate_from_read_observation : ReadObservation → Result StateCandidate
candidate_from_read_observation item = do
  let statement = item.observation.statement
  refuse
      (not (
          resolved_term_matches_source item.subject statement.subject
            item.subject_grounding_mention_id)
        || not (
            resolved_term_matches_source item.object statement.object
              item.object_grounding_mention_id))
      "resolved observation terms are invalid"
  key ←
      replace_error "resolved observation state is invalid"
        (new_state_key item.subject statement.predicate)
  ok (record {
    key = key;
    value = item.object;
    observation = item.observation;
    subject_grounding_mention_id = item.subject_grounding_mention_id;
    object_grounding_mention_id = item.object_grounding_mention_id;
  })
