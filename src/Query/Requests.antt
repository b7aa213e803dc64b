-- ===== src/Query/Requests.antt =====
-- internal/query/contract.go: requests, their limits and their normal form. The types that are
-- strings in the source are texts here.
use stacks.Base.{
  true, ◌==◌, Bool, not, ◌&&◌, ◌||◌, List, [], ◌∷◌, Text, bytes, is_empty, trim_space, same,
  text_order, member, add, length, sort_on, Result, ok, refuse, wrap, ◌>>=◌, ◌>>◌, if◌then◌else◌,
}
use stacks.Encodings.Ints.{ℤ, pos, less, not_positive, not_zero}
use stacks.Observation.Claims.{new_predicate}
use stacks.Temporal.Plans.{
  TemporalSelection, KnowledgeScope, new_plan, intent_point_in_time, intent_trend_comparison,
  intent_trajectory, intent_causal_chain,
}
use stacks.Temporal.Causal.{causal_predicate}

abbrev pub entity_match_all : Text
entity_match_all = bytes "all"

abbrev pub entity_match_any : Text
entity_match_any = bytes "any"

pub record Limits : Type 0 where
  pub max_entities : ℤ
  pub max_predicates : ℤ
  pub max_chronology : ℤ

pub record Request : Type 0 where
  pub intent : Text
  pub entity_ids : List Text
  pub entity_match : Text
  pub predicates : List Text
  pub selections : List TemporalSelection
  pub knowledge_scope : KnowledgeScope
  pub limit : ℤ

unfoldable pub validate_limits : Limits → Result (Unit {0})
validate_limits limits =
    refuse
      (not_positive limits.max_entities
        || not_positive limits.max_predicates
        || not_positive limits.max_chronology)
      "query limits must be positive"

-- The loop of `normalizeEntityIDs`.
unfoldable pub collect_entity_ids : List Text → List Text → Result (List Text)
collect_entity_ids [] seen = ok []
collect_entity_ids (input ∷ rest) seen = do
  let value = trim_space input
  refuse (is_empty value) "query entity ID is required"
  refuse (member value seen) "query entity IDs must be unique"
  values ← collect_entity_ids rest (add value seen)
  ok (value ∷ values)

unfoldable pub normalize_entity_ids : List Text → ℤ → Result (List Text)
normalize_entity_ids values maximum = do
  refuse (length values == 0) "query entity IDs are required"
  refuse (less maximum (pos (length values))) "query entity IDs exceed the configured maximum"
  result ← collect_entity_ids values []
  ok (sort_on (λ id. id) result)

-- The loop of `normalizePredicates`.
unfoldable pub collect_predicates : List Text → List Text → Result (List Text)
collect_predicates [] seen = ok []
collect_predicates (input ∷ rest) seen = do
  let value = trim_space input
  predicate ← wrap "query predicate: %w" (new_predicate value)
  refuse (member value seen) "query predicates must be unique"
  values ← collect_predicates rest (add value seen)
  ok (value ∷ values)

unfoldable pub normalize_predicates : List Text → ℤ → Result (List Text)
normalize_predicates values maximum = do
  refuse (less maximum (pos (length values))) "query predicates exceed the configured maximum"
  result ← collect_predicates values []
  ok (sort_on (λ predicate. predicate) result)

unfoldable pub validate_intent_limit : Text → ℤ → ℤ → Result (Unit {0})
validate_intent_limit intent limit maximum =
    if same intent intent_point_in_time || same intent intent_trend_comparison
    then refuse (not_zero limit) "query intent %q does not accept a chronology limit"
    else refuse
        ((same intent intent_trajectory || same intent intent_causal_chain)
          && (not_positive limit || less maximum limit))
        "query chronology limit is outside the configured maximum"

-- `len(predicates) != 1 || predicates[0] != CausalPredicate`
abbrev pub not_causal : List Text → Bool
not_causal (predicate ∷ []) = not (same predicate causal_predicate)
not_causal predicates = true

unfoldable pub normalize_request : Request → Limits → Result Request
normalize_request request limits = do
  validate_limits limits
  entity_ids ← normalize_entity_ids request.entity_ids limits.max_entities
  predicates ← normalize_predicates request.predicates limits.max_predicates
  let match : Text =
      if is_empty request.entity_match then entity_match_all else request.entity_match
  refuse (not (same match entity_match_all) && not (same match entity_match_any))
      "query entity match is invalid"
  plan ← wrap "validate temporal query: %w" (
      new_plan (record {
        intent = request.intent;
        entity_ids = entity_ids;
        selections = request.selections;
        knowledge_scope = request.knowledge_scope;
      }))
  validate_intent_limit request.intent request.limit limits.max_chronology
  refuse (same request.intent intent_causal_chain && not_causal predicates)
      "causal query requires the exact causal predicate"
  ok (record {
    intent = request.intent;
    entity_ids = entity_ids;
    entity_match = match;
    predicates = predicates;
    selections = request.selections;
    knowledge_scope = request.knowledge_scope;
    limit = request.limit;
  })
