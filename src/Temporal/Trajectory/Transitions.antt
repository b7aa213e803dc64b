-- ===== src/Temporal/Trajectory/Transitions.antt =====
-- What the difference of two adjacent states reports of a key (`diffTrajectoryState` of
-- core/temporal/trajectory.go).
use stacks.Temporal.Aggregation.{UnresolvedFact, Summary}
use stacks.Base.{
  ◌≡◌, refl, ap, ◌∙◌, inl, inr, Bool, true, false, ◌&&◌, ◌||◌, Option, none, some, List, [], ◌∷◌,
  same, same→eq, nat_order, text_order, pair_order, find, store, find-store, is_some, any,
  any-append, arith, if◌then◌else◌, Bool-cases,
}
use stacks.Base.Entries.{All-store}
use stacks.Observation.Extents.{TemporalExtent}
use stacks.Temporal.Terms.{
  StateKey, Fact, TermIdentity, StateKeyIdentity, identity_for_term, identity_for_state_key,
}
use stacks.Temporal.Comparison.{Facts, Change, change_of, store_fact_keys, order_keys}
use stacks.Temporal.Comparison.Maps.{valued, first_of, KeyedFacts}
use stacks.Temporal.Comparison.Keys.{
  key_at, any-order_keys, store_fact_keys-KeyedKeys, find-store_fact_keys,
}
use stacks.Temporal.Comparison.Differences.{differ, is_some-change_of}
use stacks.Temporal.Trajectory.Steps.{
  Transition, facts_by_identity, transition_at, transitions_at, diff_trajectory_state,
  trajectory_unresolved, unresolved_by_identity,
}

-- The value that a list of facts has for a key, the last one where it has several.
abbrev pub latest_at : StateKeyIdentity → List Fact → Option TermIdentity
latest_at j [] = none
latest_at j (f ∷ fs) =
    first_of (latest_at j fs)
      (if same (identity_for_state_key f.key) j then some (identity_for_term f.value) else none)

facts_by_identity-KeyedFacts :
    (fs : List Fact) (m : Facts) → KeyedFacts m → KeyedFacts (facts_by_identity fs m)
unfolding facts_by_identity
facts_by_identity-KeyedFacts [] m h = h
facts_by_identity-KeyedFacts (f ∷ fs) m h =
    facts_by_identity-KeyedFacts fs (store (identity_for_state_key f.key) f m) (
      All-store (λ i (f : Fact). identity_for_state_key f.key ≡ i) (identity_for_state_key f.key) f
        m refl h)

valued-facts_by_identity :
    (fs : List Fact) (m : Facts) (j : StateKeyIdentity)
    → valued (find j (facts_by_identity fs m)) ≡ first_of (latest_at j fs) (valued (find j m))
unfolding facts_by_identity
valued-facts_by_identity [] m j = refl
valued-facts_by_identity (f ∷ fs) m j =
    valued-facts_by_identity fs (store (identity_for_state_key f.key) f m) j
    ∙ rw find-store (either (latest_at j fs) (same (identity_for_state_key f.key) j) f (find j m))
  where
    either :
        (v : Option TermIdentity) (b : Bool) (f : Fact) (o : Option Fact)
        → first_of v (valued (if b then some f else o))
          ≡ first_of (first_of v (if b then some (identity_for_term f.value) else none)) (valued o)
    either none true f o = refl
    either none false f o = refl
    either (some v) b f o = refl

abbrev pub transition_for : StateKeyIdentity → Transition → Bool
transition_for j t = same (identity_for_state_key t.key) j

module _ (before after : Summary) (valid_time : TemporalExtent) (j : StateKeyIdentity) where
  abbrev changes_here : Bool
  changes_here =
      differ (valued (find j (facts_by_identity before.facts [])))
        (valued (find j (facts_by_identity after.facts [])))

  any-transition_at :
      (key : StateKey)
      → any (transition_for j) (transition_at before after valid_time key)
        ≡ (key_at j key && changes_here)
  unfolding transition_at any
  any-transition_at key =
      made
        (change_of key (find (identity_for_state_key key) (facts_by_identity before.facts []))
          (find (identity_for_state_key key) (facts_by_identity after.facts [])))
        (trajectory_unresolved
          (find (identity_for_state_key key) (unresolved_by_identity before.unresolved []))
          (find (identity_for_state_key key) (unresolved_by_identity after.unresolved [])))
      ∙ rw is_some-change_of (elim (Bool-cases (key_at j key)) [
        | inl e ↦ rw (same→eq (identity_for_state_key key) j e)
        | inr e ↦ rw e
      ])
    where
      made :
          (o : Option Change) (unresolved : List UnresolvedFact)
          → any (transition_for j) (elim o [
            | none ↦ []
            | some change ↦
                record {
                  kind = change.kind;
                  key = key;
                  valid_time = valid_time;
                  before_fact = change.before;
                  after_fact = change.after;
                  unresolved = unresolved;
                }
                ∷ []
          ])
            ≡ (key_at j key && is_some o)
      made none unresolved = ground arith
      made (some change) unresolved = ground arith

  any-transitions_at :
      (ks : List StateKey)
      → any (transition_for j) (transitions_at before after valid_time ks)
        ≡ (any (key_at j) ks && changes_here)
  unfolding transitions_at any
  any-transitions_at [] = refl
  any-transitions_at (key ∷ ks) =
      any-append (transition_for j) (transition_at before after valid_time key)
        (transitions_at before after valid_time ks)
      ∙ ground (arith, any-transition_at key, any-transitions_at ks)

  -- Two adjacent states have a transition of a key exactly where their facts differ in the value of
  -- the key, or where one state alone has a fact; the last fact of a key is the one that counts.
  pub diff_trajectory_state_lem :
      any (transition_for j) (diff_trajectory_state before after valid_time)
      ≡ differ (latest_at j before.facts) (latest_at j after.facts)
  unfolding diff_trajectory_state find
  diff_trajectory_state_lem =
      let bf = facts_by_identity before.facts [] in
      let af = facts_by_identity after.facts [] in
      let keyed_bf = facts_by_identity-KeyedFacts before.facts [] tt in
      let keyed_af = facts_by_identity-KeyedFacts after.facts [] tt in
      let ks = store_fact_keys af (store_fact_keys bf []) in
      any-transitions_at (order_keys ks)
      ∙ ap (λ b. b && changes_here)
          (any-order_keys ks j (
              store_fact_keys-KeyedKeys af _ keyed_af (store_fact_keys-KeyedKeys bf [] keyed_bf tt))
            ∙ find-store_fact_keys af (store_fact_keys bf []) j
            ∙ ap (λ b. is_some (find j af) || b) (find-store_fact_keys bf [] j))
      ∙ differing (find j bf) (find j af) false
      ∙ rw (latest before.facts, latest after.facts)
    where
      differing :
          (x y : Option Fact) (b : Bool)
          → ((is_some y || (is_some x || b)) && differ (valued x) (valued y))
            ≡ differ (valued x) (valued y)
      differing none none b = ground arith
      differing (some f) y b = ground arith
      differing none (some f) b = ground arith

      alone : (v : Option TermIdentity) → first_of v none ≡ v
      alone none = refl
      alone (some v) = refl

      latest : (fs : List Fact) → valued (find j (facts_by_identity fs [])) ≡ latest_at j fs
      latest fs = valued-facts_by_identity fs [] j ∙ alone (latest_at j fs)
