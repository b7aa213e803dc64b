-- ===== src/Temporal/Aggregation/Resolved.antt =====
-- The facts of a summary, against the candidates that count.
use mathlib.Core.Path.{subst}
use stacks.Base.{
  ◌≡◌, refl, sym, ap, ◌∙◌, inl, inr, Bool, true, not, ◌&&◌, ◌||◌, Option, none, some, List, [], ◌∷◌,
  Text, same, same_refl, same→eq, nat_order, text_order, pair_order, member, find, is_some, sort_on,
  any, All, All-any, ok, >>=-eq-ok, Bool-cases,
}
use stacks.Base.Entries.{
  All-map_to, All-append, All-map, All-sort_on, All-find, IsMap-Found, member-sort_on_self,
}
use stacks.Temporal.Terms.{
  StateCandidate, Fact, TermIdentity, StateKeyIdentity, identity_for_term, identity_for_state_key,
}
use stacks.Temporal.Plans.{KnowledgeScope, TemporalSelection}
use stacks.Temporal.Eligibility.{
  observation_has_supporting_evidence, valid_time_eligibility, point_valid_time_eligibility,
}
use stacks.Temporal.Aggregation.Accumulators.{FactAccumulator, KeyAccumulator}
use stacks.Temporal.Aggregation.Collecting.{Groups, ValidTimeSelector, aggregate_candidates}
use stacks.Temporal.Aggregation.Summaries.{
  Summary, accumulator_fact, group_value, found_fact, resolved_facts, group_facts,
  summarize_ordered, summarize_groups, aggregate_window, summarize, aggregate_window-eq-ok,
  reconstruct_state-eq-ok, reconstruct_state,
}
use stacks.Temporal.Aggregation.Provenance.{Class, supported, class_map, read, Measure, held}
use stacks.Temporal.Aggregation.Measures.{
  observations_measure, supporting_measure, contradicting_measure,
}
use stacks.Temporal.Aggregation.Counting.{counted, gives, class_in, held-aggregate_candidates}
use stacks.Temporal.Aggregation.Keyed.{KeyedGroup, KeyedEntry, aggregate_candidates-KeyedGroups}
use stacks.Temporal.Aggregation.Values.{
  group_value-eq-some, read_found, gives_itself, class_of-supporting,
}

module _ (scope : KnowledgeScope) (select : ValidTimeSelector)
    (candidates : List StateCandidate) where
  -- A fact is uncontested: every counted candidate of its key has supporting evidence and the
  -- fact's value, and the fact cites exactly what its supported candidates bring.
  pub record IsUncontested (fact : Fact) : Type 0 where
    pub agree :
        All
          (λ c.
            (not (same (identity_for_state_key c.key) (identity_for_state_key fact.key))
              || (observation_has_supporting_evidence c.observation
                  && same (identity_for_term c.value) (identity_for_term fact.value)))
            ≡ true)
          (counted scope select [] candidates)
    pub cited :
        (id : Text)
        → member id fact.observation_ids
          ≡ any
              (gives scope select observations_measure supported
                (identity_for_state_key fact.key)
                (identity_for_term fact.value)
                id)
              (counted scope select [] candidates)
    pub supports :
        (e : Text)
        → member e fact.supporting_evidence_ids
          ≡ any
              (gives scope select supporting_measure supported
                (identity_for_state_key fact.key)
                (identity_for_term fact.value)
                e)
              (counted scope select [] candidates)
    pub contradicts :
        (e : Text)
        → member e fact.contradicting_evidence_ids
          ≡ any
              (gives scope select contradicting_measure supported
                (identity_for_state_key fact.key)
                (identity_for_term fact.value)
                e)
              (counted scope select [] candidates)

  module _ (groups : Groups) (run : aggregate_candidates scope select candidates ≡ ok groups) where
    module _ (k : StateKeyIdentity) (g : KeyAccumulator) (at_key : find k groups ≡ some g) where
      held_at_key :
          (m : Measure) (cl : Class) (v : TermIdentity) (e : Text)
          → held m cl k v groups e ≡ member e (read m.field (find v (class_map cl g)))
      unfolding held
      held_at_key m cl v e = rw at_key

      -- A sorted set of a supported accumulator is what the counted candidates give it.
      sorted_set :
          (m : Measure) {v : TermIdentity} (acc : FactAccumulator) (e : Text)
          → find v g.supported ≡ some acc
          → identity_for_state_key acc.key ≡ k
          → identity_for_term acc.value ≡ v
          → member e (sort_on (λ (x : Text). x) (m.field acc))
            ≡ any
                (gives scope select m supported
                  (identity_for_state_key acc.key)
                  (identity_for_term acc.value)
                  e)
                (counted scope select [] candidates)
      sorted_set m {v} acc e f p q =
          rw (p, q)
            (member-sort_on_self (λ (x : Text). x) e (m.field acc)
              ∙ ap (λ o. member e (read m.field o)) (sym f)
              ∙ sym (held_at_key m supported v e)
              ∙ held-aggregate_candidates scope select m candidates groups run supported k v e)

      -- A counted candidate of the key is in the map of its class.
      pub counted_in_class :
          (c : StateCandidate)
          → identity_for_state_key c.key ≡ k
          → ((p : StateCandidate → Bool)
              → p c ≡ true
              → any p (counted scope select [] candidates) ≡ true)
          → is_some (find (identity_for_term c.value) (class_map (class_in scope select c) g))
            ≡ true
      counted_in_class c e here =
          let m = observations_measure in
          let cl = class_in scope select c in
          let v = identity_for_term c.value in
          let id = c.observation.id in
          let given = gives_itself scope select c k e in
          let holds : held m cl k v groups id ≡ true =
            held-aggregate_candidates scope select m candidates groups run cl k v id
            ∙ here _ given in
          read_found id (find v (class_map cl g)) (sym (held_at_key m cl v id) ∙ holds)

      fact-IsUncontested :
          {v : TermIdentity} (acc : FactAccumulator)
          → KeyedGroup k g
          → group_value g ≡ some v
          → find v g.supported ≡ some acc
          → IsUncontested (accumulator_fact acc)
      unfolding accumulator_fact
      fact-IsUncontested {v} acc keyed e f =
          let (keys_agree, values_agree) =
            All-find (KeyedEntry k) v acc g.supported (keyed.1 supported).1 f in
          record {
            agree =
                All-map_to _ _ (counted scope select [] candidates)
                  (λ c here.
                    elim (Bool-cases
                      (same (identity_for_state_key c.key) (identity_for_state_key acc.key))) [
                        | inl t ↦
                            let same_key =
                              same→eq (identity_for_state_key c.key)
                                (identity_for_state_key acc.key) t in
                            let (not_counter, one_value) =
                              group_value-eq-some g (class_in scope select c)
                                (identity_for_term c.value) e
                                (counted_in_class c (same_key ∙ keys_agree) here) in
                            rw
                              (
                                t,
                                class_of-supporting _ c.observation not_counter,
                                one_value ∙ sym values_agree,
                              )
                              (same_refl (identity_for_term acc.value))
                        | inr t ↦ rw t
                      ])
                  (All-any (counted scope select [] candidates));
            cited = λ e. sorted_set observations_measure acc e f keys_agree values_agree;
            supports = λ e. sorted_set supporting_measure acc e f keys_agree values_agree;
            contradicts = λ e. sorted_set contradicting_measure acc e f keys_agree values_agree;
          }

      group_facts-IsUncontested : KeyedGroup k g → All IsUncontested (group_facts g)
      unfolding group_facts
      group_facts-IsUncontested keyed = resolved (group_value g) refl
        where
          found :
              (v : TermIdentity) (o : Option FactAccumulator)
              → group_value g ≡ some v
              → find v g.supported ≡ o
              → All IsUncontested (found_fact o)
          found v none e f = tt
          found v (some acc) e f = (fact-IsUncontested acc keyed e f, tt)

          resolved :
              (o : Option TermIdentity) → group_value g ≡ o → All IsUncontested (resolved_facts o g)
          resolved none e = tt
          resolved (some v) e = found v (find v g.supported) e refl

    summarize_ordered-IsUncontested :
        (gs : List KeyAccumulator)
        → All (λ g. All IsUncontested (group_facts g)) gs
        → All IsUncontested (summarize_ordered gs).facts
    unfolding summarize_ordered
    summarize_ordered-IsUncontested [] h = tt
    summarize_ordered-IsUncontested (g ∷ gs) h =
        All-append IsUncontested (group_facts g) _ h.0 (summarize_ordered-IsUncontested gs h.1)

    summarize_groups-IsUncontested : All IsUncontested (summarize_groups groups).facts
    unfolding summarize_groups
    summarize_groups-IsUncontested =
        let (distinct, keyed) =
          aggregate_candidates-KeyedGroups scope select candidates groups run in
        summarize_ordered-IsUncontested _ (
          All-sort_on (λ g. All IsUncontested (group_facts g)) _ _
            (All-map (λ g. All IsUncontested (group_facts g)) (λ e. e.1) groups
              (All-map_to _ _ groups
                (λ e at_key.
                  group_facts-IsUncontested e.0 e.1 at_key
                    (All-find KeyedGroup e.0 e.1 groups keyed at_key))
                (IsMap-Found groups distinct))))

summarize-IsUncontested :
    (selection : TemporalSelection) (scope : KnowledgeScope) (select : ValidTimeSelector)
    → (candidates : List StateCandidate) (summary : Summary)
    → summarize selection scope select candidates ≡ ok summary
    → All (IsUncontested scope select candidates) summary.facts
unfolding summarize
summarize-IsUncontested selection scope select candidates summary h =
    let (groups, run, done) = >>=-eq-ok (aggregate_candidates scope select candidates) _ h in
    let facts : (summarize_groups groups).facts ≡ summary.facts = cc in
    subst (All (IsUncontested scope select candidates)) facts
      (summarize_groups-IsUncontested scope select candidates groups run)

-- Every fact of a window summary is uncontested among the candidates that the window counts: all
-- of them with the fact's key have supporting evidence and the fact's value, and the identifiers
-- that the fact cites are exactly those that the supported ones bring.
pub aggregate_window-IsUncontested :
    (selection : TemporalSelection) (scope : KnowledgeScope) (candidates : List StateCandidate)
    → (summary : Summary) → aggregate_window selection scope candidates ≡ ok summary
    → All
        (IsUncontested scope (valid_time_eligibility selection.start selection.end) candidates)
        summary.facts
aggregate_window-IsUncontested selection scope candidates summary h =
    summarize-IsUncontested selection scope _ candidates summary
      (aggregate_window-eq-ok selection scope candidates h)

-- Every fact of a reconstructed state is uncontested among the candidates that the point counts, in
-- the same sense.
pub reconstruct_state-IsUncontested :
    (selection : TemporalSelection) (scope : KnowledgeScope) (candidates : List StateCandidate)
    → (summary : Summary) → reconstruct_state selection scope candidates ≡ ok summary
    → All
        (IsUncontested scope (point_valid_time_eligibility selection.start) candidates)
        summary.facts
reconstruct_state-IsUncontested selection scope candidates summary h =
    summarize-IsUncontested selection scope _ candidates summary
      (reconstruct_state-eq-ok selection scope candidates h)
