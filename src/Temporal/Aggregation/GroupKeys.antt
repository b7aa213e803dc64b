-- ===== src/Temporal/Aggregation/GroupKeys.antt =====
-- Which keys the facts and the unresolved facts of the groups have.
use stacks.Base.{
  ◌≡◌, refl, sym, ap, ◌∙◌, Bool, true, false, not, ◌&&◌, ◌||◌, Option, none, some, List, [], ◌∷◌,
  map, same, same_refl, nat_order, text_order, pair_order, find, store, or_else, is_some, sort_on,
  any, any-append, arith, member,
}
use stacks.Base.Entries.{All-map_to, All-find}
use stacks.Base.Anys.{any-same, any-map, any-sort_on, any-find, found}
use stacks.Temporal.Terms.{Fact, TermIdentity, StateKeyIdentity, identity_for_state_key}
use stacks.Temporal.Aggregation.Accumulators.{
  FactAccumulator, Accumulators, KeyAccumulator, new_fact_accumulator, unite, merge_into,
  merge_accumulators,
}
use stacks.Temporal.Aggregation.Collecting.{Groups}
use stacks.Temporal.Aggregation.Summaries.{
  UnresolvedFact, sorted_accumulator_values, accumulator_fact, group_value, found_fact,
  resolved_facts, contested_facts, unresolved_fact, group_facts, group_unresolved,
  summarize_ordered, summarize_groups,
}
use stacks.Temporal.Aggregation.Provenance.{Class, supported, tentative, counter_only, class_map}
use stacks.Temporal.Aggregation.Keyed.{KeyedGroup, KeyedGroups, KeyedEntry}
use stacks.Temporal.Aggregation.Values.{resolved_value-eq-some, member-sorted_accumulator_values}

abbrev pub fact_at : StateKeyIdentity → Fact → Bool
fact_at k fact = same (identity_for_state_key fact.key) k

abbrev pub unresolved_at : StateKeyIdentity → UnresolvedFact → Bool
unresolved_at k item = same (identity_for_state_key item.key) k

abbrev pub resolves : KeyAccumulator → Bool
resolves g = is_some (group_value g)

-- A group's value is one of its supported values.
pub group_value-found :
    (g : KeyAccumulator) (v : TermIdentity)
    → group_value g ≡ some v
    → is_some (find v g.supported) ≡ true
group_value-found g v e =
    let (sup, _, _) = resolved_value-eq-some (sorted_accumulator_values g.supported) _ _ e in
    sym (member-sorted_accumulator_values v g.supported)
    ∙ ap (member v) sup
    ∙ (unfold member in rw same_refl)

pub any-group_facts :
    (k j : StateKeyIdentity) (g : KeyAccumulator)
    → KeyedGroup k g
    → any (fact_at j) (group_facts g) ≡ (same k j && resolves g)
unfolding group_facts any
any-group_facts k j g keyed = resolved (group_value g) refl
  where
    at_value :
        (v : TermIdentity) (o : Option FactAccumulator)
        → find v g.supported ≡ o
        → is_some o ≡ true
        → any (fact_at j) (found_fact o) ≡ same k j
    at_value v none f h = cc
    at_value v (some acc) f h =
        let (keys_agree, _) = All-find (KeyedEntry k) v acc g.supported (keyed.1 supported).1 f in
        unfold accumulator_fact in rw keys_agree (ground arith)

    resolved :
        (o : Option TermIdentity)
        → group_value g ≡ o
        → any (fact_at j) (resolved_facts o g) ≡ (same k j && is_some o)
    resolved none e = ground arith
    resolved (some v) e =
        at_value v (find v g.supported) refl (group_value-found g v e) ∙ ground arith

abbrev pub nonempty : Accumulators → Bool
nonempty [] = false
nonempty (x ∷ xs) = true

abbrev pub all_candidates : KeyAccumulator → Accumulators
all_candidates g = merge_accumulators g.supported g.tentative g.counter_only

pub any-group_unresolved :
    (k j : StateKeyIdentity) (g : KeyAccumulator)
    → KeyedGroup k g
    → any (unresolved_at j) (group_unresolved g)
      ≡ (same k j && (not (resolves g) && nonempty (all_candidates g)))
unfolding group_unresolved contested_facts unresolved_fact any
any-group_unresolved k j g keyed = contested (group_value g)
  where
    offered :
        (merged : Accumulators)
        → any (unresolved_at j) (unresolved_fact g merged) ≡ (same k j && nonempty merged)
    offered [] = ground arith
    offered (c ∷ cs) = rw (keyed.0) (ground arith)

    contested :
        (o : Option TermIdentity)
        → any (unresolved_at j) (contested_facts o g)
          ≡ (same k j && (not (is_some o) && nonempty (all_candidates g)))
    contested none = ground (arith, offered (all_candidates g))
    contested (some v) = ground arith

pub nonempty-store :
    (v : TermIdentity) (acc : FactAccumulator) (m : Accumulators) → nonempty (store v acc m) ≡ true
unfolding store
nonempty-store v acc [] = refl
nonempty-store v acc ((w, a) ∷ m) = ground arith

pub nonempty-merge_into :
    (m merged : Accumulators) → nonempty (merge_into m merged) ≡ (nonempty m || nonempty merged)
unfolding merge_into
nonempty-merge_into [] merged = refl
nonempty-merge_into ((v, a) ∷ m) merged = ground (
  arith,
  nonempty-merge_into m
      (store v (unite a (or_else (find v merged) (new_fact_accumulator a.key a.value))) merged),
  nonempty-store v (unite a (or_else (find v merged) (new_fact_accumulator a.key a.value))) merged,
)

pub found-nonempty :
    (v : TermIdentity) (m : Accumulators) → is_some (find v m) ≡ true → nonempty m ≡ true
unfolding find
found-nonempty v [] h = cc
found-nonempty v (x ∷ m) h = refl

-- A value in one of the three maps makes the merged candidates nonempty.
pub class_nonempty :
    (v : TermIdentity) (cl : Class) (g : KeyAccumulator)
    → is_some (find v (class_map cl g)) ≡ true
    → nonempty (all_candidates g) ≡ true
unfolding merge_accumulators
class_nonempty v cl g h = rw nonempty-merge_into (of_class cl (found-nonempty v (class_map cl g) h))
  where
    of_class :
        (cl : Class)
        → nonempty (class_map cl g) ≡ true
        → (nonempty g.counter_only || nonempty (merge_into g.tentative (merge_into g.supported [])))
          ≡ true
    of_class supported k = rw (nonempty-merge_into, nonempty-merge_into) (ground arith)
    of_class tentative k = rw (nonempty-merge_into, nonempty-merge_into) (ground arith)
    of_class counter_only k = ground arith

pub any-summarize_ordered :
    (j : StateKeyIdentity) (gs : List KeyAccumulator)
    → (any (fact_at j) (summarize_ordered gs).facts ≡ any (λ g. any (fact_at j) (group_facts g)) gs)
      × (any (unresolved_at j) (summarize_ordered gs).unresolved
          ≡ any (λ g. any (unresolved_at j) (group_unresolved g)) gs)
unfolding summarize_ordered any
any-summarize_ordered j [] = (refl, refl)
any-summarize_ordered j (g ∷ gs) =
    let (p, q) = any-summarize_ordered j gs in
    (
      rw (any-append (fact_at j) (group_facts g) (summarize_ordered gs).facts, p),
      rw (any-append (unresolved_at j) (group_unresolved g) (summarize_ordered gs).unresolved, q),
    )

-- What a property of the groups, key by key, becomes after the sort.
pub any-groups :
    (j : StateKeyIdentity) (p : KeyAccumulator → Bool) (q : KeyAccumulator → Bool) (groups : Groups)
    → KeyedGroups groups
    → ((k : StateKeyIdentity) (g : KeyAccumulator) → KeyedGroup k g → p g ≡ (same k j && q g))
    → any p (sort_on (λ (g : KeyAccumulator). identity_for_state_key g.key) (map (λ e. e.1) groups))
      ≡ found q (find j groups)
any-groups j p q groups (distinct, keyed) h =
    any-sort_on (λ (g : KeyAccumulator). identity_for_state_key g.key) p (map (λ e. e.1) groups)
    ∙ any-map p (λ e. e.1) groups
    ∙ any-same (λ e. p e.1) (λ e. same e.0 j && q e.1) groups
        (All-map_to _ _ groups (λ e k. h e.0 e.1 k) keyed)
    ∙ any-find q j groups distinct

pub any-summarize_groups :
    (j : StateKeyIdentity) (groups : Groups)
    → KeyedGroups groups
    → (any (fact_at j) (summarize_groups groups).facts ≡ found resolves (find j groups))
      × (any (unresolved_at j) (summarize_groups groups).unresolved
          ≡ found (λ g. not (resolves g) && nonempty (all_candidates g)) (find j groups))
unfolding summarize_groups
any-summarize_groups j groups keyed =
    let sorted =
      sort_on (λ (g : KeyAccumulator). identity_for_state_key g.key) (map (λ e. e.1) groups) in
    (
      (any-summarize_ordered j sorted).0
          ∙ any-groups j _ resolves groups keyed (λ k g h. any-group_facts k j g h),
      (any-summarize_ordered j sorted).1
          ∙ any-groups j _ (λ g. not (resolves g) && nonempty (all_candidates g)) groups keyed
              (λ k g h. any-group_unresolved k j g h),
    )
