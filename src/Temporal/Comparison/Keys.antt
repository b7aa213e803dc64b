-- ===== src/Temporal/Comparison/Keys.antt =====
-- The maps and the keys of `CompareWindowSummaries`, key by key (core/temporal/comparison.go).
use stacks.Temporal.Plans.{selection_window}
use stacks.Base.{
  ◌==◌, ◌≡◌, refl, sym, ap, ◌∙◌, Bool, false, not, ◌||◌, List, [], ◌∷◌, map, same, nat_order,
  text_order, pair_order, find, store, find-store, is_some, any, All, ok, >>=-eq-ok,
  refuse->>-eq-ok, arith,
}
use stacks.Base.Entries.{All-store}
use stacks.Base.Anys.{any-map, any-sort_on}
use stacks.Temporal.Terms.{StateKey, StateKeyIdentity, identity_for_state_key}
use stacks.Temporal.Aggregation.{Summary}
use mathlib.Core.Path.{subst}
use stacks.Temporal.Comparison.Checks.{
  Facts, Unresolved, collect_facts, collect_unresolved, validate_summary,
}
use stacks.Temporal.Aggregation.GroupKeys.{unresolved_at}
use stacks.Temporal.Comparison.Changes.{
  store_fact_keys, store_unresolved_keys, order_keys, all_keys,
}
use stacks.Temporal.Comparison.Maps.{
  value_at, valued, KeyedFacts, collect_facts-eq-ok, KeyedUnresolved, collect_unresolved-eq-ok,
}

-- The keys that a map gives to the keys of the comparison.
pub find-store_fact_keys :
    (m : Facts) (ks : List (StateKeyIdentity × StateKey)) (j : StateKeyIdentity)
    → is_some (find j (store_fact_keys m ks)) ≡ (is_some (find j m) || is_some (find j ks))
unfolding store_fact_keys find
find-store_fact_keys [] ks j = refl
find-store_fact_keys ((i, f) ∷ m) ks j =
    find-store_fact_keys m (store i f.key ks) j ∙ rw find-store (ground arith)

pub find-store_unresolved_keys :
    (m : Unresolved) (ks : List (StateKeyIdentity × StateKey)) (j : StateKeyIdentity)
    → is_some (find j (store_unresolved_keys m ks)) ≡ (is_some (find j m) || is_some (find j ks))
unfolding store_unresolved_keys find
find-store_unresolved_keys [] ks j = refl
find-store_unresolved_keys ((i, u) ∷ m) ks j =
    find-store_unresolved_keys m (store i u.key ks) j ∙ rw find-store (ground arith)

abbrev pub KeyedKeys : List (StateKeyIdentity × StateKey) → Type 0
KeyedKeys m = All (λ e. identity_for_state_key e.1 ≡ e.0) m

pub store_fact_keys-KeyedKeys :
    (m : Facts) (ks : List (StateKeyIdentity × StateKey))
    → KeyedFacts m
    → KeyedKeys ks
    → KeyedKeys (store_fact_keys m ks)
unfolding store_fact_keys
store_fact_keys-KeyedKeys [] ks h k = k
store_fact_keys-KeyedKeys ((i, f) ∷ m) ks h k =
    store_fact_keys-KeyedKeys m (store i f.key ks) h.1
      (All-store (λ i (key : StateKey). identity_for_state_key key ≡ i) i f.key ks h.0 k)

store_unresolved_keys-KeyedKeys :
    (m : Unresolved) (ks : List (StateKeyIdentity × StateKey))
    → KeyedUnresolved m
    → KeyedKeys ks
    → KeyedKeys (store_unresolved_keys m ks)
unfolding store_unresolved_keys
store_unresolved_keys-KeyedKeys [] ks h k = k
store_unresolved_keys-KeyedKeys ((i, u) ∷ m) ks h k =
    store_unresolved_keys-KeyedKeys m (store i u.key ks) h.1
      (All-store (λ i (key : StateKey). identity_for_state_key key ≡ i) i u.key ks h.0 k)

abbrev pub key_at : StateKeyIdentity → StateKey → Bool
key_at j key = same (identity_for_state_key key) j

pub any-order_keys :
    (ks : List (StateKeyIdentity × StateKey)) (j : StateKeyIdentity)
    → KeyedKeys ks
    → any (key_at j) (order_keys ks) ≡ is_some (find j ks)
unfolding order_keys any find
any-order_keys ks j h =
    any-sort_on identity_for_state_key (key_at j) (map (λ e. e.1) ks)
    ∙ any-map (key_at j) (λ e. e.1) ks
    ∙ by_identity ks h
  where
    by_identity :
        (ks : List (StateKeyIdentity × StateKey))
        → KeyedKeys ks
        → any (λ e. key_at j e.1) ks ≡ is_some (find j ks)
    by_identity [] h = refl
    by_identity ((i, key) ∷ ks) h = rw h.0 (ground (arith, by_identity ks h.1))

-- A key is compared exactly where one of the four maps has it.
pub any-all_keys :
    (bf af : Facts) (bu au : Unresolved) (j : StateKeyIdentity)
    → KeyedFacts bf
    → KeyedFacts af
    → KeyedUnresolved bu
    → KeyedUnresolved au
    → any (key_at j) (all_keys bf af bu au) ≡ (
        is_some (find j au)
        || (is_some (find j bu) || (is_some (find j af) || is_some (find j bf))))
unfolding all_keys find
any-all_keys bf af bu au j p q r t =
    let facts = store_fact_keys-KeyedKeys af _ q (store_fact_keys-KeyedKeys bf [] p tt) in
    let unresolved =
      store_unresolved_keys-KeyedKeys au _ t (store_unresolved_keys-KeyedKeys bu _ r facts) in
    any-order_keys _ j unresolved
    ∙ rw
        (
          find-store_unresolved_keys, find-store_unresolved_keys, find-store_fact_keys,
          find-store_fact_keys,
        )
        (drop_false (is_some (find j au)) (is_some (find j bu)) (is_some (find j af))
          (is_some (find j bf)))
  where
    drop_false : (a b c d : Bool) → (a || (b || (c || (d || false)))) ≡ (a || (b || (c || d)))
    drop_false a b c d = ground arith

-- What the maps of a valid summary have for each key.
pub validate_summary-eq-ok :
    (summary : Summary) (facts : Facts) (unresolved : Unresolved)
    → validate_summary summary ≡ ok (facts, unresolved)
    → KeyedFacts facts
      × KeyedUnresolved unresolved
      × ((j : StateKeyIdentity)
          → (valued (find j facts) ≡ value_at j summary.facts)
            × (is_some (find j unresolved) ≡ any (unresolved_at j) summary.unresolved))
unfolding validate_summary
validate_summary-eq-ok summary facts unresolved h =
    let (_, h1) = refuse->>-eq-ok (not (summary.selection.kind == selection_window)) _ _ h in
    let (f, collected, h2) = >>=-eq-ok (collect_facts summary.facts []) _ h1 in
    let (u, listed, h3) = >>=-eq-ok (collect_unresolved summary.unresolved f []) _ h2 in
    let (keyed, values) = collect_facts-eq-ok summary.facts [] collected tt in
    let (keyed_unresolved, found_keys) =
      collect_unresolved-eq-ok summary.unresolved f [] listed tt in
    let same_facts : f ≡ facts = cc in
    let same_unresolved : u ≡ unresolved = cc in
    (
      subst KeyedFacts same_facts keyed,
      subst KeyedUnresolved same_unresolved keyed_unresolved,
      λ j. (
        ap (λ (m : Facts). valued (find j m)) (sym same_facts) ∙ values j ∙ (unfold find in refl),
        ap (λ (m : Unresolved). is_some (find j m)) (sym same_unresolved)
            ∙ found_keys j
            ∙ (unfold find in refl),
      ),
    )
