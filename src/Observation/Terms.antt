-- ===== src/Observation/Terms.antt =====
-- core/observation/term.go. A `Term` has private fields, so its values are those of its four
-- constructors; a field that a kind does not use is empty.
use stacks.Base.{ℕ, Text, trim_space, is_empty, Result, ok, refuse, ◌>>◌}

pub data Term : Type 0 where
  absent : Term
  text_term : (text : Text) → Term
  mention_term : (mention_id : Text) → Term
  entity_term : (entity_id grounding_mention_id : Text) → Term

-- `term.Kind()`, with the values of `TermKind`.
unfoldable pub kind : Term → ℕ
kind absent = 0
kind (text_term value) = 1
kind (mention_term id) = 2
kind (entity_term id grounding) = 3

unfoldable pub new_text_term : Text → Result Term
new_text_term value = do
  refuse (is_empty (trim_space value)) "term text is required"
  ok (text_term value)

unfoldable pub new_mention_term : Text → Result Term
new_mention_term mention_id = do
  let id = trim_space mention_id
  refuse (is_empty id) "term mention ID is required"
  ok (mention_term id)

unfoldable pub new_entity_term : Text → Text → Result Term
new_entity_term entity_id grounding_mention_id = do
  let id = trim_space entity_id
  refuse (is_empty id) "term entity ID is required"
  ok (entity_term id (trim_space grounding_mention_id))
