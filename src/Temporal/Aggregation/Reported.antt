-- ===== src/Temporal/Aggregation/Reported.antt =====
-- The keys that a window summary reports, against the candidates that count.
use stacks.Temporal.Aggregation.Summaries.{
  aggregate_window-eq-ok, summarize, aggregate_window, Summary, summarize_groups,
}
use stacks.Temporal.Plans.{TemporalSelection, KnowledgeScope}
use stacks.Base.{
  ◌≡◌, refl, sym, ap, ◌∙◌, inl, inr, Bool, true, false, not, ◌&&◌, ◌||◌, Option, none, some, List,
  [], ◌∷◌, Text, same, same→eq, nat_order, text_order, pair_order, find, any, All, All-any, ok,
  >>=-eq-ok, arith, Bool-cases, Option-cases, member,
}
use stacks.Base.Entries.{All-map_to}
use stacks.Base.Anys.{found}
use stacks.Temporal.Terms.{
  StateCandidate, TermIdentity, StateKeyIdentity, identity_for_term, identity_for_state_key,
}
use stacks.Temporal.Eligibility.{valid_time_eligibility}
use stacks.Temporal.Aggregation.Accumulators.{KeyAccumulator}
use stacks.Temporal.Aggregation.Collecting.{Groups, ValidTimeSelector, aggregate_candidates}
use stacks.Temporal.Aggregation.Provenance.{Class, supported, tentative, counter_only, held}
use stacks.Temporal.Aggregation.Counting.{counted, class_in, held-aggregate_candidates}
use stacks.Temporal.Aggregation.Measures.{observations_measure}
use stacks.Temporal.Aggregation.Keyed.{aggregate_candidates-KeyedGroups}
use stacks.Temporal.Aggregation.Values.{gives_itself}
use stacks.Temporal.Aggregation.Resolved.{counted_in_class}
use stacks.Temporal.Aggregation.GroupKeys.{
  fact_at, unresolved_at, resolves, nonempty, all_candidates, class_nonempty, any-summarize_groups,
}

abbrev pub counts_for : StateKeyIdentity → StateCandidate → Bool
counts_for j c = same (identity_for_state_key c.key) j

any-elim :
    (p : StateCandidate → Bool) (b : Bool) (cs : List StateCandidate)
    → any p cs ≡ true
    → All (λ c. p c ≡ true → b ≡ true) cs
    → b ≡ true
unfolding any
any-elim p b [] h k = cc
any-elim p b (c ∷ cs) h k = elim (Bool-cases (p c)) [
  | inl e ↦ k.0 e
  | inr e ↦ any-elim p b cs (rw e at h) k.1
]

held-absent :
    (cl : Class) (k : StateKeyIdentity) (v : TermIdentity) (groups : Groups) (e : Text)
    → find k groups ≡ none
    → held observations_measure cl k v groups e ≡ false
unfolding held find member
held-absent supported k v groups e h = rw h
held-absent tentative k v groups e h = rw h
held-absent counter_only k v groups e h = rw h

-- Where a candidate of the key counts, the key has a group, and this group has candidates.
found_candidates :
    (scope : KnowledgeScope) (select : ValidTimeSelector) (candidates : List StateCandidate)
    → (groups : Groups) → aggregate_candidates scope select candidates ≡ ok groups
    → (c : StateCandidate)
    → ((p : StateCandidate → Bool) → p c ≡ true → any p (counted scope select [] candidates) ≡ true)
    → found (λ g. nonempty (all_candidates g)) (find (identity_for_state_key c.key) groups) ≡ true
found_candidates scope select candidates groups run c here =
    let k = identity_for_state_key c.key in
    let v = identity_for_term c.value in
    elim (Option-cases (find k groups)) [
      | inl e ↦
          let holds =
            held-aggregate_candidates scope select observations_measure candidates groups run
              (class_in scope select c) k v c.observation.id
            ∙ here _ (gives_itself scope select c k refl) in
          let absent = held-absent (class_in scope select c) k v groups c.observation.id e in cc
      | inr (g, e) ↦ rw e (
          class_nonempty v (class_in scope select c) g
            (counted_in_class scope select candidates groups run k g e c refl here))
    ]

module _ (scope : KnowledgeScope) (select : ValidTimeSelector) (candidates : List StateCandidate)
    (groups : Groups) (run : aggregate_candidates scope select candidates ≡ ok groups)
    (j : StateKeyIdentity) where
  apart :
      (o : Option KeyAccumulator)
      → (found resolves o && found (λ g. not (resolves g) && nonempty (all_candidates g)) o) ≡ false
  apart none = refl
  apart (some g) = ground arith

  one_of :
      (o : Option KeyAccumulator)
      → found (λ g. nonempty (all_candidates g)) o ≡ true
      → (found resolves o || found (λ g. not (resolves g) && nonempty (all_candidates g)) o) ≡ true
  one_of none h = cc
  one_of (some g) h = ground arith

  summarize_groups-apart :
      (any (fact_at j) (summarize_groups groups).facts
        && any (unresolved_at j) (summarize_groups groups).unresolved)
      ≡ false
  summarize_groups-apart =
      let keyed = aggregate_candidates-KeyedGroups scope select candidates groups run in
      rw ((any-summarize_groups j groups keyed).0, (any-summarize_groups j groups keyed).1)
        (apart (find j groups))

  summarize_groups-reports :
      any (counts_for j) (counted scope select [] candidates) ≡ true
      → (any (fact_at j) (summarize_groups groups).facts
          || any (unresolved_at j) (summarize_groups groups).unresolved)
        ≡ true
  summarize_groups-reports h =
      let keyed = aggregate_candidates-KeyedGroups scope select candidates groups run in
      rw ((any-summarize_groups j groups keyed).0, (any-summarize_groups j groups keyed).1)
        (one_of (find j groups) (
          any-elim (counts_for j) _ (counted scope select [] candidates) h (
            All-map_to _ _ (counted scope select [] candidates)
              (λ c here e.
                ap (λ i. found (λ g. nonempty (all_candidates g)) (find i groups))
                  (sym (same→eq (identity_for_state_key c.key) j e))
                ∙ found_candidates scope select candidates groups run c here)
              (All-any (counted scope select [] candidates)))))

module _ (selection : TemporalSelection) (scope : KnowledgeScope) (candidates : List StateCandidate)
    (summary : Summary) (h : aggregate_window selection scope candidates ≡ ok summary)
    (j : StateKeyIdentity) where
  -- A window summary that succeeds never reports a key both as a fact and as unresolved.
  pub aggregate_window_apart :
      (any (fact_at j) summary.facts && any (unresolved_at j) summary.unresolved) ≡ false
  unfolding summarize
  aggregate_window_apart =
      let (groups, run, done) =
        >>=-eq-ok (aggregate_candidates scope _ candidates) _
          (aggregate_window-eq-ok selection scope candidates h) in
      let facts : (summarize_groups groups).facts ≡ summary.facts = cc in
      let unresolved : (summarize_groups groups).unresolved ≡ summary.unresolved = cc in
      rw (← facts, ← unresolved) (summarize_groups-apart scope _ candidates groups run j)

  -- A window summary that succeeds reports the key of every candidate that the window counts, as a
  -- fact or as unresolved.
  pub aggregate_window_reports :
      any
          (counts_for j)
          (counted scope (valid_time_eligibility selection.start selection.end) [] candidates)
        ≡ true
      → (any (fact_at j) summary.facts || any (unresolved_at j) summary.unresolved) ≡ true
  unfolding summarize
  aggregate_window_reports here =
      let (groups, run, done) =
        >>=-eq-ok (aggregate_candidates scope _ candidates) _
          (aggregate_window-eq-ok selection scope candidates h) in
      let facts : (summarize_groups groups).facts ≡ summary.facts = cc in
      let unresolved : (summarize_groups groups).unresolved ≡ summary.unresolved = cc in
      rw (← facts, ← unresolved) (summarize_groups-reports scope _ candidates groups run j here)
