-- ===== src/Temporal/Aggregation/Keyed.antt =====
-- The maps that `aggregateCandidates` builds are keyed by what they hold: a group by the identity
-- of its key, and an accumulator by the identities of its value and of its key.
use stacks.Base.{
  ◌≡◌, refl, inl, inr, Bool, List, [], ◌∷◌, nat_order, text_order, pair_order, find, All, ok, arith,
  Bool-cases, Option-cases,
}
use stacks.Base.Entries.{All-find, All-store, IsMap, store-IsMap}
use stacks.Observation.Digests.{EvidenceLink}
use stacks.Observation.Claims.{Observation}
use stacks.Temporal.Terms.{
  StateKey, StateCandidate, TermIdentity, StateKeyIdentity, identity_for_term,
  identity_for_state_key,
}
use stacks.Temporal.Plans.{KnowledgeScope}
use stacks.Temporal.Aggregation.Accumulators.{
  FactAccumulator, Accumulators, KeyAccumulator, new_fact_accumulator, absorb_link, absorb_links,
  absorb, merge_candidate, new_key_accumulator, classify,
}
use stacks.Temporal.Aggregation.Collecting.{Groups, ValidTimeSelector, admit, aggregate_candidates}
use stacks.Temporal.Aggregation.Provenance.{
  Class, supported, tentative, counter_only, class_map, same_class, class_of, class_map-classify,
}
use stacks.Temporal.Aggregation.Counting.{aggregate_candidates_keeps}

abbrev pub KeyedEntry : StateKeyIdentity → TermIdentity → FactAccumulator → Type 0
KeyedEntry k v acc = (identity_for_state_key acc.key ≡ k) × (identity_for_term acc.value ≡ v)

abbrev pub KeyedMap : StateKeyIdentity → Accumulators → Type 0
KeyedMap k m = IsMap m × All (λ e. KeyedEntry k e.0 e.1) m

abbrev pub KeyedGroup : StateKeyIdentity → KeyAccumulator → Type 0
KeyedGroup k group =
    (identity_for_state_key group.key ≡ k) × ((cl : Class) → KeyedMap k (class_map cl group))

abbrev pub KeyedGroups : Groups → Type 0
KeyedGroups groups = IsMap groups × All (λ e. KeyedGroup e.0 e.1) groups

absorb_links_keeps :
    (links : List EvidenceLink) (acc : FactAccumulator)
    → ((absorb_links links acc).key ≡ acc.key) × ((absorb_links links acc).value ≡ acc.value)
unfolding absorb_links absorb_link
absorb_links_keeps [] acc = (refl, refl)
absorb_links_keeps (link ∷ links) acc =
    let (p, q) = absorb_links_keeps links (absorb_link link acc) in (ground arith, ground arith)

absorb-KeyedEntry :
    (o : Observation) (acc : FactAccumulator) (k : StateKeyIdentity) (v : TermIdentity)
    → KeyedEntry k v acc
    → KeyedEntry k v (absorb o acc)
unfolding absorb
absorb-KeyedEntry o acc k v h =
    rw ((absorb_links_keeps o.evidence _).0, (absorb_links_keeps o.evidence _).1) h

merge_candidate-KeyedMap :
    (c : StateCandidate) (target : Accumulators)
    → KeyedMap (identity_for_state_key c.key) target
    → KeyedMap (identity_for_state_key c.key) (merge_candidate target c.key c.value c.observation)
unfolding merge_candidate
merge_candidate-KeyedMap c target (u, h) =
    let id = identity_for_term c.value in
    let k = identity_for_state_key c.key in
    (
      store-IsMap id _ target u,
      All-store (KeyedEntry k) id _ target
          (absorb-KeyedEntry c.observation _ k id (elim (Option-cases (find id target)) [
            | inl e ↦ rw e (unfold new_fact_accumulator in (refl, refl))
            | inr (acc, e) ↦ rw e (All-find (KeyedEntry k) id acc target h e)
          ]))
          h,
    )

classify-KeyedGroup :
    (u : Bool) (c : StateCandidate) (group : KeyAccumulator)
    → KeyedGroup (identity_for_state_key c.key) group
    → KeyedGroup (identity_for_state_key c.key) (classify u c group)
classify-KeyedGroup u c group (key, maps) = (
  unfold classify in ground arith,
  λ cl.
      rw (class_map-classify u c group cl)
        (elim (Bool-cases (same_class (class_of u c.observation) cl)) [
          | inl e ↦ rw e (merge_candidate-KeyedMap c (class_map cl group) (maps cl))
          | inr e ↦ rw e (maps cl)
        ]),
)

new_key_accumulator-KeyedGroup :
    (key : StateKey) → KeyedGroup (identity_for_state_key key) (new_key_accumulator key)
unfolding new_key_accumulator
new_key_accumulator-KeyedGroup key = (refl, empty)
  where
    empty :
        (cl : Class)
        → KeyedMap (identity_for_state_key key) (class_map cl (new_key_accumulator key))
    empty supported = (tt, tt)
    empty tentative = (tt, tt)
    empty counter_only = (tt, tt)

admit-KeyedGroups :
    (u : Bool) (c : StateCandidate) (groups : Groups)
    → KeyedGroups groups
    → KeyedGroups (admit u c groups)
unfolding admit
admit-KeyedGroups u c groups (m, h) =
    let k = identity_for_state_key c.key in
    (
      store-IsMap k _ groups m,
      All-store KeyedGroup k _ groups
          (classify-KeyedGroup u c _ (elim (Option-cases (find k groups)) [
            | inl e ↦ rw e (new_key_accumulator-KeyedGroup c.key)
            | inr (group, e) ↦ rw e (All-find KeyedGroup k group groups h e)
          ]))
          h,
    )

pub aggregate_candidates-KeyedGroups :
    (scope : KnowledgeScope) (select : ValidTimeSelector)
    → (candidates : List StateCandidate) (groups : Groups)
    → aggregate_candidates scope select candidates ≡ ok groups
    → KeyedGroups groups
aggregate_candidates-KeyedGroups scope select candidates groups h =
    aggregate_candidates_keeps scope select KeyedGroups admit-KeyedGroups candidates groups h
      (tt, tt)
