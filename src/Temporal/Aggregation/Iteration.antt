-- ===== src/Temporal/Aggregation/Iteration.antt =====
-- The order in which Go iterates over the maps of `summarizeGroups` (core/temporal/aggregation.go).
use stacks.Base.{
  ◌≡◌, refl, sym, ap, List, [], ◌∷◌, map, nat_order, text_order, pair_order, keys, sort_on-Permᴰ,
  All, ok,
}
use mathlib.Core.Path.{subst}
use mathlib.Core.List.{Permᴰ, Nodup}
use stacks.Base.Distinct.{Nodup-keys, Permᴰ-map}
use stacks.Temporal.Terms.{StateCandidate, StateKeyIdentity, identity_for_state_key}
use stacks.Temporal.Plans.{KnowledgeScope}
use stacks.Temporal.Aggregation.Accumulators.{Accumulators, KeyAccumulator}
use stacks.Temporal.Aggregation.Collecting.{Groups, ValidTimeSelector, aggregate_candidates}
use stacks.Temporal.Aggregation.Summaries.{
  sorted_entries, accumulator_order, summarize_groups, summarize_ordered,
}
use stacks.Temporal.Aggregation.Keyed.{KeyedGroup, KeyedMap, aggregate_candidates-KeyedGroups}

group_keys :
    (groups : Groups)
    → All (λ e. KeyedGroup e.0 e.1) groups
    → keys groups
      ≡ map (λ (g : KeyAccumulator). identity_for_state_key g.key) (map (λ e. e.1) groups)
group_keys [] h = refl
group_keys (e ∷ groups) h = rw (h.0.0, group_keys groups h.1)

-- Where aggregation succeeds, the summary is the same for every order in which the groups are listed.
pub summarize_groups_iteration :
    (scope : KnowledgeScope) (select : ValidTimeSelector) (candidates : List StateCandidate)
    → (groups listed : Groups) → aggregate_candidates scope select candidates ≡ ok groups
    → Permᴰ groups listed
    → summarize_groups listed ≡ summarize_groups groups
unfolding summarize_groups
summarize_groups_iteration scope select candidates groups listed run p =
    let (distinct, keyed) = aggregate_candidates-KeyedGroups scope select candidates groups run in
    let differ = subst Nodup (group_keys groups keyed) (Nodup-keys groups distinct) in
    ap summarize_ordered (
      sym (
        sort_on-Permᴰ (λ (g : KeyAccumulator). identity_for_state_key g.key)
          (Permᴰ-map (λ e. e.1) p) differ))

entry_keys :
    (k : StateKeyIdentity) (m : Accumulators) → KeyedMap k m → keys m ≡ map accumulator_order m
entry_keys k [] h = refl
entry_keys k (e ∷ m) h = rw (h.1.0.1, entry_keys k m (h.0.1, h.1.1))

sorted_entries_iteration :
    (k : StateKeyIdentity) (m listed : Accumulators)
    → KeyedMap k m
    → Permᴰ m listed
    → sorted_entries listed ≡ sorted_entries m
unfolding sorted_entries
sorted_entries_iteration k m listed h p =
    sym (sort_on-Permᴰ accumulator_order p (subst Nodup (entry_keys k m h) (Nodup-keys m h.0)))
