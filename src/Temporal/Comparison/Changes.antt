-- ===== src/Temporal/Comparison/Changes.antt =====
-- `CompareWindowSummaries` of core/temporal/comparison.go.
use stacks.Base.{
  Bool, true, not, Option, none, some, List, [], ◌∷◌, map, Text, bytes, is_eq, nat_order,
  text_order, pair_order, find, store, sort_on, is_some, Result, ok, refuse, ◌>>=◌, ◌>>◌,
  if◌then◌else◌,
}
use stacks.Timepoint.{before}
use stacks.Temporal.Terms.{StateKey, Fact, StateKeyIdentity, identity_for_state_key, compare_terms}
use stacks.Temporal.Plans.{TemporalSelection}
use stacks.Temporal.Aggregation.{Summary, UnresolvedFact}
use stacks.Temporal.Comparison.Checks.{Facts, Unresolved, validate_summary}

abbrev pub change_added : Text
change_added = bytes "added"

abbrev pub change_removed : Text
change_removed = bytes "removed"

abbrev pub change_changed : Text
change_changed = bytes "changed"

pub record Change : Type 0 where
  pub kind : Text
  pub key : StateKey
  pub before : Option Fact
  pub after : Option Fact

pub record Comparison : Type 0 where
  pub before : TemporalSelection
  pub after : TemporalSelection
  pub before_facts : List Fact
  pub after_facts : List Fact
  pub changes : List Change
  pub unresolved_keys : List StateKey
  pub before_unresolved : List UnresolvedFact
  pub after_unresolved : List UnresolvedFact

unfoldable pub ordered_facts : Facts → List Fact
ordered_facts facts = sort_on (λ f. identity_for_state_key f.key) (map (λ e. e.1) facts)

unfoldable pub ordered_unresolved : Unresolved → List UnresolvedFact
ordered_unresolved items = sort_on (λ u. identity_for_state_key u.key) (map (λ e. e.1) items)

-- The `keys` of the entries of a map, under their identities.
unfoldable pub store_fact_keys :
    Facts → List (StateKeyIdentity × StateKey) → List (StateKeyIdentity × StateKey)
store_fact_keys [] keys = keys
store_fact_keys ((identity, fact) ∷ rest) keys = store_fact_keys rest (store identity fact.key keys)

unfoldable pub store_unresolved_keys :
    Unresolved → List (StateKeyIdentity × StateKey) → List (StateKeyIdentity × StateKey)
store_unresolved_keys [] keys = keys
store_unresolved_keys ((identity, item) ∷ rest) keys =
    store_unresolved_keys rest (store identity item.key keys)

unfoldable pub order_keys : List (StateKeyIdentity × StateKey) → List StateKey
order_keys keys = sort_on identity_for_state_key (map (λ e. e.1) keys)

-- The `switch` on the two facts of a key.
unfoldable pub change_of : StateKey → Option Fact → Option Fact → Option Change
change_of key none (some a) =
    some (record { kind = change_added; key = key; before = none; after = some a })
change_of key (some b) none =
    some (record { kind = change_removed; key = key; before = some b; after = none })
change_of key (some b) (some a) =
    if is_eq (compare_terms b.value a.value)
    then none
    else some (record { kind = change_changed; key = key; before = some b; after = some a })
change_of key none none = none

module _ (before_facts after_facts : Facts) (before_unresolved after_unresolved : Unresolved) where
  -- The body of the loop over the ordered keys, as the key and the change that it adds.
  unfoldable pub key_unresolved : StateKey → Bool
  key_unresolved key =
      if is_some (find (identity_for_state_key key) before_unresolved)
      then true
      else is_some (find (identity_for_state_key key) after_unresolved)

  unfoldable pub key_change : StateKey → Option Change
  key_change key =
      if key_unresolved key
      then none
      else change_of key (find (identity_for_state_key key) before_facts)
          (find (identity_for_state_key key) after_facts)

  unfoldable pub collect_changes : List StateKey → List Change
  collect_changes [] = []
  collect_changes (key ∷ keys) =
      let rest = collect_changes keys in
      elim (key_change key) [ none ↦ rest | some change ↦ change ∷ rest ]

  unfoldable pub collect_unresolved_keys : List StateKey → List StateKey
  collect_unresolved_keys [] = []
  collect_unresolved_keys (key ∷ keys) =
      let rest = collect_unresolved_keys keys in if key_unresolved key then key ∷ rest else rest

  unfoldable pub all_keys : List StateKey
  all_keys = order_keys (
      store_unresolved_keys after_unresolved (
        store_unresolved_keys before_unresolved
          (store_fact_keys after_facts (store_fact_keys before_facts []))))

unfoldable pub compare_window_summaries : Summary → Summary → Result Comparison
compare_window_summaries before_summary after_summary = do
  (before_facts, before_unresolved) ← validate_summary before_summary
  (after_facts, after_unresolved) ← validate_summary after_summary
  refuse (not (before before_summary.selection.start after_summary.selection.start))
      "comparison windows must be ordered by start time"
  let keys = all_keys before_facts after_facts before_unresolved after_unresolved
  ok (record {
    before = before_summary.selection;
    after = after_summary.selection;
    before_facts = ordered_facts before_facts;
    after_facts = ordered_facts after_facts;
    changes = collect_changes before_facts after_facts before_unresolved after_unresolved keys;
    unresolved_keys =
        collect_unresolved_keys before_facts after_facts before_unresolved after_unresolved keys;
    before_unresolved = ordered_unresolved before_unresolved;
    after_unresolved = ordered_unresolved after_unresolved;
  })
