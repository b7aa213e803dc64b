-- ===== src/Temporal/Comparison/Differences.antt =====
-- What a comparison reports of a key: a change, an unresolved key or nothing
-- (`CompareWindowSummaries` of core/temporal/comparison.go).
use stacks.Base.{
  ◌≡◌, refl, sym, ap, ◌∙◌, inl, inr, Bool, true, false, not, ◌&&◌, ◌||◌, Option, none, some, List,
  [], ◌∷◌, same, same→eq, nat_order, text_order, pair_order, find, is_some, any, ok, >>=-eq-ok,
  refuse->>-eq-ok, arith, if◌then◌else◌, Bool-cases,
}
use stacks.Temporal.Terms.{StateKey, Fact, TermIdentity, StateKeyIdentity, identity_for_state_key}
use stacks.Base.Anys.{found}
use stacks.Temporal.Terms.Order.{compare_terms-eq-cmp}
use stacks.Temporal.Aggregation.{Summary}
use stacks.Temporal.Aggregation.GroupKeys.{unresolved_at}
use stacks.Temporal.Comparison.Checks.{Facts, Unresolved, validate_summary}
use stacks.Temporal.Comparison.Changes.{
  Change, Comparison, change_of, key_unresolved, key_change, collect_changes,
  collect_unresolved_keys, all_keys, compare_window_summaries,
}
use stacks.Temporal.Comparison.Maps.{value_at, valued}
use stacks.Temporal.Comparison.Keys.{key_at, any-all_keys, validate_summary-eq-ok}
use stacks.Timepoint

abbrev pub differ : Option TermIdentity → Option TermIdentity → Bool
differ none none = false
differ (some u) (some v) = not (same u v)
differ _ _ = true

abbrev pub change_at : StateKeyIdentity → Change → Bool
change_at j change = same (identity_for_state_key change.key) j

pub is_some-change_of :
    (key : StateKey) (b a : Option Fact)
    → is_some (change_of key b a) ≡ differ (valued b) (valued a)
unfolding change_of
is_some-change_of key none none = refl
is_some-change_of key none (some a) = refl
is_some-change_of key (some b) none = refl
is_some-change_of key (some b) (some a) = rw compare_terms-eq-cmp (ground arith)

module _ (bf af : Facts) (bu au : Unresolved) (j : StateKeyIdentity) where
  abbrev unresolved_here : Bool
  unresolved_here = is_some (find j bu) || is_some (find j au)

  key_unresolved_at :
      (key : StateKey)
      → identity_for_state_key key ≡ j
      → key_unresolved bf af bu au key ≡ unresolved_here
  unfolding key_unresolved
  key_unresolved_at key e = rw e (ground arith)

  any-collect_unresolved_keys :
      (ks : List StateKey)
      → any (key_at j) (collect_unresolved_keys bf af bu au ks)
        ≡ (any (key_at j) ks && unresolved_here)
  unfolding collect_unresolved_keys any
  any-collect_unresolved_keys [] = refl
  any-collect_unresolved_keys (key ∷ ks) = ground (
    arith,
    any-collect_unresolved_keys ks,
    same→eq (identity_for_state_key key) j,
    key_unresolved_at key,
  )

  abbrev differ_here : Bool
  differ_here = not unresolved_here && differ (valued (find j bf)) (valued (find j af))

  found-change_of :
      (key : StateKey) (b a : Option Fact)
      → found (change_at j) (change_of key b a) ≡ (key_at j key && differ (valued b) (valued a))
  unfolding change_of
  found-change_of key none none = ground arith
  found-change_of key none (some a) = ground arith
  found-change_of key (some b) none = ground arith
  found-change_of key (some b) (some a) = rw compare_terms-eq-cmp (ground arith)

  found-key_change :
      (key : StateKey)
      → found (change_at j) (key_change bf af bu au key) ≡ (key_at j key && differ_here)
  unfolding key_change
  found-key_change key =
      gated (key_unresolved bf af bu au key) _
      ∙ ap (λ b. not (key_unresolved bf af bu au key) && b)
          (found-change_of key (find (identity_for_state_key key) bf)
            (find (identity_for_state_key key) af))
      ∙ elim (Bool-cases (key_at j key)) [
        | inl e ↦
            let here = same→eq (identity_for_state_key key) j e in
            rw (key_unresolved_at key here, here) (regroup (not unresolved_here) (same j j) _)
        | inr e ↦ rw e (ground arith)
      ]
    where
      gated :
          (u : Bool) (o : Option Change)
          → found (change_at j) (if u then none else o) ≡ (not u && found (change_at j) o)
      gated true o = refl
      gated false o = refl

      regroup : (u v w : Bool) → (u && (v && w)) ≡ (v && (u && w))
      regroup u v w = ground arith

  any-collect_changes :
      (ks : List StateKey)
      → any (change_at j) (collect_changes bf af bu au ks) ≡ (any (key_at j) ks && differ_here)
  unfolding collect_changes any
  any-collect_changes [] = refl
  any-collect_changes (key ∷ ks) =
      head (key_change bf af bu au key) (collect_changes bf af bu au ks)
      ∙ ground (arith, found-key_change key, any-collect_changes ks)
    where
      head :
          (o : Option Change) (rest : List Change)
          → any (change_at j) (elim o [ none ↦ rest | some change ↦ change ∷ rest ])
            ≡ (found (change_at j) o || any (change_at j) rest)
      head none rest = refl
      head (some change) rest = refl

abbrev pub unresolved_in : StateKeyIdentity → Summary → Summary → Bool
unresolved_in j before after =
    any (unresolved_at j) before.unresolved || any (unresolved_at j) after.unresolved

-- A comparison that succeeds lists as unresolved exactly the keys that one of the summaries has as
-- unresolved, and as changed exactly the other keys for which the summaries' facts differ in
-- their value, or for which one summary alone has a fact.
pub compare_window_summaries_lem :
    (before after : Summary) (comparison : Comparison)
    → compare_window_summaries before after ≡ ok comparison
    → (j : StateKeyIdentity)
    → (any (key_at j) comparison.unresolved_keys ≡ unresolved_in j before after)
      × (any (change_at j) comparison.changes ≡ (
          not (unresolved_in j before after)
          && differ (value_at j before.facts) (value_at j after.facts)))
unfolding compare_window_summaries
compare_window_summaries_lem before after comparison h j =
    let ((bf, bu), b, h1) = >>=-eq-ok (validate_summary before) _ h in
    let ((af, au), a, h2) = >>=-eq-ok (validate_summary after) _ h1 in
    let (_, done) =
      refuse->>-eq-ok (not (Timepoint.before before.selection.start after.selection.start)) _ _
        h2 in
    let (keyed_bf, keyed_bu, of_before) = validate_summary-eq-ok before bf bu b in
    let (keyed_af, keyed_au, of_after) = validate_summary-eq-ok after af au a in
    let ks = all_keys bf af bu au in
    let present = any-all_keys bf af bu au j keyed_bf keyed_af keyed_bu keyed_au in
    let unresolved : collect_unresolved_keys bf af bu au ks ≡ comparison.unresolved_keys = cc in
    let changes : collect_changes bf af bu au ks ≡ comparison.changes = cc in
    let agree : (is_some (find j bu) || is_some (find j au)) ≡ unresolved_in j before after =
      rw ((of_before j).1, (of_after j).1) in
    (
      ap (any (key_at j)) (sym unresolved)
          ∙ any-collect_unresolved_keys bf af bu au j ks
          ∙ ap (λ b. b && unresolved_here bf af bu au j) present
          ∙ covered (is_some (find j bu)) (is_some (find j au)) (is_some (find j af))
              (is_some (find j bf))
          ∙ agree,
      ap (any (change_at j)) (sym changes)
          ∙ any-collect_changes bf af bu au j ks
          ∙ ap (λ b. b && differ_here bf af bu au j) present
          ∙ differing (is_some (find j bu)) (is_some (find j au)) (find j bf) (find j af)
          ∙ rw (agree, (of_before j).0, (of_after j).0),
    )
  where
    covered : (u v x y : Bool) → ((v || (u || (x || y))) && (u || v)) ≡ (u || v)
    covered u v x y = ground arith

    differing :
        (u v : Bool) (x y : Option Fact)
        → ((v || (u || (is_some y || is_some x))) && (not (u || v) && differ (valued x) (valued y)))
          ≡ (not (u || v) && differ (valued x) (valued y))
    differing u v none none = ground arith
    differing u v (some f) y = ground arith
    differing u v none (some f) = ground arith
