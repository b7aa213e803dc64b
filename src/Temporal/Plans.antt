-- ===== src/Temporal/Plans.antt =====
-- core/temporal/plan.go: selections, knowledge scopes and the retrieval plan.
pub mod Accepted
use stacks.Base.{
  ℕ, Bool, false, not, ◌&&◌, ◌||◌, List, [], ◌∷◌, Option, none, some, Text, bytes, is_empty,
  trim_space, same, text_order, member, add, length, Result, ok, err, refuse, ◌>>=◌, ◌>>◌, ◌==◌,
  if◌then◌else◌,
}
use stacks.Timepoint.{Time, is_zero, normalize, before, zero_time}

abbrev pub intent_point_in_time : Text
intent_point_in_time = bytes "point-in-time"

abbrev pub intent_trend_comparison : Text
intent_trend_comparison = bytes "trend-comparison"

abbrev pub intent_trajectory : Text
intent_trajectory = bytes "trajectory"

abbrev pub intent_causal_chain : Text
intent_causal_chain = bytes "causal-chain"

-- `SelectionKind`; the zero value of a selection has kind 0.
abbrev pub selection_point : ℕ
selection_point = 1

abbrev pub selection_window : ℕ
selection_window = 2

pub record TemporalSelection : Type 0 where
  pub kind : ℕ
  pub label : Text
  pub start : Time
  pub end : Time

-- `At`
unfoldable pub at : Text → Time → Result TemporalSelection
at input instant = do
  let label = trim_space input
  refuse (is_empty label) "temporal selection label is required"
  refuse (is_zero instant) "temporal selection instant is required"
  ok (record { kind = selection_point; label = label; start = normalize instant; end = zero_time })

-- `Between`
unfoldable pub between : Text → Time → Time → Result TemporalSelection
between input start end = do
  let label = trim_space input
  refuse (is_empty label) "temporal selection label is required"
  refuse (is_zero start || is_zero end) "temporal selection window bounds are required"
  let start' = normalize start
  let end' = normalize end
  refuse (not (before start' end')) "temporal selection window end must be after start"
  ok (record { kind = selection_window; label = label; start = start'; end = end' })

abbrev pub knowledge_current : ℕ
knowledge_current = 0

abbrev pub knowledge_as_of : ℕ
knowledge_as_of = 1

pub record KnowledgeScope : Type 0 where
  pub kind : ℕ
  pub as_of : Time

unfoldable pub current_knowledge : KnowledgeScope
current_knowledge = record { kind = knowledge_current; as_of = zero_time }

unfoldable pub known_as_of : Time → Result KnowledgeScope
known_as_of cutoff = do
  refuse (is_zero cutoff) "knowledge cutoff is required"
  ok (record { kind = knowledge_as_of; as_of = normalize cutoff })

-- `scope.AsOf()`
unfoldable pub cutoff_of : KnowledgeScope → Option Time
cutoff_of scope = if scope.kind == knowledge_as_of then some scope.as_of else none

-- `scope.kind != KnowledgeCurrent && scope.kind != KnowledgeAsOf`
unfoldable pub scope_invalid : KnowledgeScope → Bool
scope_invalid scope = not (scope.kind == knowledge_current) && not (scope.kind == knowledge_as_of)

-- `RetrievalOperation`
pub data Operation : Type 0 where
  reconstruct_state aggregate_windows diff_windows partition_timeline order_transitions : Operation
  retrieve_causal_claims order_causal_claims : Operation

pub record PlanInput : Type 0 where
  pub intent : Text
  pub entity_ids : List Text
  pub selections : List TemporalSelection
  pub knowledge_scope : KnowledgeScope

pub record Plan : Type 0 where
  pub intent : Text
  pub entity_ids : List Text
  pub selections : List TemporalSelection
  pub knowledge_scope : KnowledgeScope
  pub operations : List Operation

unfoldable pub intent_valid : Text → Bool
intent_valid intent =
    same intent intent_point_in_time
    || same intent intent_trend_comparison
    || same intent intent_trajectory
    || same intent intent_causal_chain

-- The loop of `validateSelections`: every selection has the wanted kind and a label of its own.
unfoldable pub check_selections : ℕ → List TemporalSelection → List Text → Result (Unit {0})
check_selections want_kind [] seen = ok tt
check_selections want_kind (selection ∷ rest) seen = do
  refuse (not (selection.kind == want_kind)) "query intent %q requires temporal selection kind %d"
  refuse (member selection.label seen) "query temporal selection labels must be unique"
  check_selections want_kind rest (add selection.label seen)

-- `selections[1].start.After(selections[0].start)`
unfoldable pub second_starts_later : List TemporalSelection → Bool
second_starts_later (first ∷ second ∷ rest) = before first.start second.start
second_starts_later _ = false

unfoldable pub validate_selections : Text → List TemporalSelection → Result (Unit {0})
unfolding second_starts_later
validate_selections intent selections = do
  let want_count : ℕ = if same intent intent_trend_comparison then 2 else 1
  let want_kind : ℕ = if same intent intent_point_in_time then selection_point else selection_window
  refuse (not (length selections == want_count)) "query intent %q requires %d temporal selections"
  refuse (same intent intent_trend_comparison && not (second_starts_later selections))
      "trend comparison windows must be ordered by start time"
  check_selections want_kind selections []

unfoldable pub operations_for : Text → List Operation
operations_for intent =
    if same intent intent_point_in_time
    then reconstruct_state ∷ []
    else if same intent intent_trend_comparison
    then aggregate_windows ∷ diff_windows ∷ []
    else if same intent intent_trajectory
    then partition_timeline ∷ aggregate_windows ∷ diff_windows ∷ order_transitions ∷ []
    else if same intent intent_causal_chain
    then retrieve_causal_claims ∷ order_causal_claims ∷ []
    else []

-- The loop of `normalizeUniqueStrings`.
unfoldable pub collect_unique : List Text → List Text → Result (List Text)
collect_unique [] seen = ok []
collect_unique (input ∷ rest) seen = do
  let value = trim_space input
  refuse (is_empty value) "%s is required"
  refuse (member value seen) "%ss must be unique"
  values ← collect_unique rest (add value seen)
  ok (value ∷ values)

unfoldable pub normalize_unique_strings : List Text → Result (List Text)
unfolding collect_unique
normalize_unique_strings [] = err "%s is required"
normalize_unique_strings (value ∷ rest) = collect_unique (value ∷ rest) []

unfoldable pub new_plan : PlanInput → Result Plan
new_plan input = do
  refuse (not (intent_valid input.intent)) "query intent is invalid"
  entity_ids ← normalize_unique_strings input.entity_ids
  validate_selections input.intent input.selections
  refuse (scope_invalid input.knowledge_scope) "query knowledge scope is invalid"
  ok (record {
    intent = input.intent;
    entity_ids = entity_ids;
    selections = input.selections;
    knowledge_scope = input.knowledge_scope;
    operations = operations_for input.intent;
  })
