-- ===== src/Temporal/Aggregation/Counting.antt =====
-- The loop of `aggregateCandidates` as a whole, and the candidates that count.
use stacks.Base.{
  ◌≡◌, refl, sym, ap, ◌∙◌, inl, inr, Bool, true, false, not, ◌&&◌, ◌||◌, Option, none, some, List,
  [], ◌∷◌, Text, same, same→eq, nat_order, text_order, pair_order, member, find, store, find-store,
  is_some, is_empty, trim_space, any, ok, refuse, >>=-eq-ok, arith, Bool-cases, if◌then◌else◌,
}
use mathlib.Core.Path.{subst}
use stacks.Temporal.Terms.{
  StateCandidate, TermIdentity, StateKeyIdentity, identity_for_term, identity_for_state_key,
  candidate_matches_observation,
}
use stacks.Temporal.Plans.{KnowledgeScope}
use stacks.Temporal.Aggregation.Collecting.{
  Groups, Collected, CandidateIdentity, identity_for_candidate, ValidTimeSelector, check_repeat,
  is_selected, admit, group_candidate, collect_candidate, collect_step, collect,
  aggregate_candidates,
}
use stacks.Temporal.Aggregation.Provenance.{
  Class, supported, same_class, class_of, Measure, held, held-admit,
}

module _ (scope : KnowledgeScope) (select : ValidTimeSelector) where
  -- The candidates that count: the first of each observation identifier, where its observation is
  -- recorded in time, valid in the selection and not rejected. `ids` are the identifiers before.
  unfoldable pub counted : List Text → List StateCandidate → List StateCandidate
  counted ids [] = []
  counted ids (c ∷ cs) =
      let rest = counted (c.observation.id ∷ ids) cs in
      if member c.observation.id ids
      then rest
      else if is_selected scope select c.observation
      then c ∷ rest
      else rest

  abbrev pub class_in : StateCandidate → Class
  class_in c = class_of (select c.observation.valid_time).1 c.observation

  module _ (m : Measure) (cl : Class) (k : StateKeyIdentity) (v : TermIdentity) (e : Text) where
    -- The candidate adds `e` to the set of this class, key and value.
    abbrev pub gives : StateCandidate → Bool
    gives c =
        same (identity_for_state_key c.key) k
        && same_class (class_in c) cl
        && same (identity_for_term c.value) v
        && m.adds c.observation e

  abbrev Agrees : List (Text × CandidateIdentity) → List Text → Type 0
  Agrees seen ids = (id : Text) → is_some (find id seen) ≡ member id ids

  Agrees-store :
      (id : Text) (value : CandidateIdentity) (seen : List (Text × CandidateIdentity))
      (ids : List Text)
      → Agrees seen ids
      → Agrees (store id value seen) (id ∷ ids)
  unfolding member
  Agrees-store id value seen ids h j = rw find-store (ground (arith, h j))

  -- A step that succeeds has passed its checks.
  collect_step-eq-ok :
      (c : StateCandidate) (s : Collected) {t : Collected}
      → collect_step scope select c s ≡ ok t
      → collect_candidate scope select (find c.observation.id s.seen) c s ≡ ok t
  unfolding collect_step
  collect_step-eq-ok c s h =
      let (_, _, h') = >>=-eq-ok (candidate_matches_observation c) _ h in
      let (_, _, h'') = >>=-eq-ok (refuse (is_empty (trim_space c.observation.id)) _) _ h' in h''

  collect_repeat :
      (prior : CandidateIdentity) (c : StateCandidate) (s : Collected) {t : Collected}
      → collect_candidate scope select (some prior) c s ≡ ok t
      → s ≡ t
  unfolding collect_candidate
  collect_repeat prior c s h =
      let (_, _, h') = >>=-eq-ok (check_repeat prior (identity_for_candidate c)) _ h in cc

  collect_first :
      (c : StateCandidate) (s : Collected) {t : Collected}
      → collect_candidate scope select none c s ≡ ok t
      → Path Collected
          (record {
            groups = group_candidate scope select c s.groups;
            seen = store c.observation.id (identity_for_candidate c) s.seen;
          })
          t
  unfolding collect_candidate
  collect_first c s h = cc

  module _ (m : Measure) where
    held-group_candidate :
        (c : StateCandidate) (groups : Groups)
        → (cl : Class) (k : StateKeyIdentity) (v : TermIdentity) (e : Text)
        → held m cl k v (group_candidate scope select c groups) e ≡ (
            (is_selected scope select c.observation && gives m cl k v e c)
            || held m cl k v groups e)
    unfolding group_candidate
    held-group_candidate c groups cl k v e =
        elim (Bool-cases (is_selected scope select c.observation)) [
          | inl h ↦ rw h (held-admit m (select c.observation.valid_time).1 c groups cl k v e)
          | inr h ↦ rw h
        ]

    -- A candidate of an observation that was seen before changes nothing; any other counts where
    -- the filters let it pass.
    held-collect_candidate :
        (c : StateCandidate) (s u : Collected) (ids : List Text) (o : Option CandidateIdentity)
        → find c.observation.id s.seen ≡ o
        → Agrees s.seen ids
        → collect_candidate scope select o c s ≡ ok u
        → Agrees u.seen (c.observation.id ∷ ids)
          × ((cl : Class) (k : StateKeyIdentity) (v : TermIdentity) (e : Text)
              → held m cl k v u.groups e ≡ (
                  (not (member c.observation.id ids)
                    && is_selected scope select c.observation
                    && gives m cl k v e c)
                  || held m cl k v s.groups e))
    unfolding member
    held-collect_candidate c s u ids (some prior) f agree h =
        let id = c.observation.id in
        let same_state : s ≡ u = collect_repeat prior c s h in
        let old : member id ids ≡ true = sym (agree id) ∙ ap is_some f in
        (
          (λ j. rw (← same_state) (elim (Bool-cases (same id j)) [
            | inl p ↦ rw p (ap (λ i. is_some (find i s.seen)) (sym (same→eq id j p)) ∙ ap is_some f)
            | inr p ↦ rw p (agree j)
          ])),
          (λ cl k v e. rw (old, ← same_state)),
        )
    held-collect_candidate c s u ids none f agree h =
        let id = c.observation.id in
        let new : member id ids ≡ false = sym (agree id) ∙ ap is_some f in
        let reached = collect_first c s h in
        (
          rw (← reached) (Agrees-store id (identity_for_candidate c) s.seen ids agree),
          (λ cl k v e. rw (new, ← reached) (held-group_candidate c s.groups cl k v e)),
        )

    -- After the loop each set holds what it held before and what the counted candidates give it.
    held-collect :
        (cs : List StateCandidate) (s t : Collected) (ids : List Text)
        → Agrees s.seen ids
        → collect scope select cs s ≡ ok t
        → (cl : Class) (k : StateKeyIdentity) (v : TermIdentity) (e : Text)
        → held m cl k v t.groups e
          ≡ (any (gives m cl k v e) (counted ids cs) || held m cl k v s.groups e)
    unfolding collect counted any
    held-collect [] s t ids agree h cl k v e =
        let reached : s ≡ t = cc in ap (λ (w : Collected). held m cl k v w.groups e) (sym reached)
    held-collect (c ∷ cs) s t ids agree h cl k v e =
        let (u, first, rest) = >>=-eq-ok (collect_step scope select c s) _ h in
        let (agree', added) =
          held-collect_candidate c s u ids (find c.observation.id s.seen) refl agree
            (collect_step-eq-ok c s first) in
        ground
          (arith, added cl k v e, held-collect cs u t (c.observation.id ∷ ids) agree' rest cl k v e)

  -- What every admission keeps holds of the groups.
  module _ (P : Groups → Type 0)
      (keep : (u : Bool) (c : StateCandidate) (groups : Groups)
        → P groups
        → P (admit u c groups)) where
    group_candidate_keeps :
        (c : StateCandidate) (groups : Groups)
        → P groups
        → P (group_candidate scope select c groups)
    unfolding group_candidate
    group_candidate_keeps c groups h = elim (Bool-cases (is_selected scope select c.observation)) [
      | inl e ↦ rw e (keep (select c.observation.valid_time).1 c groups h)
      | inr e ↦ rw e h
    ]

    collect_candidate_keeps :
        (o : Option CandidateIdentity) (c : StateCandidate) (s u : Collected)
        → collect_candidate scope select o c s ≡ ok u
        → P s.groups
        → P u.groups
    collect_candidate_keeps (some prior) c s u h p =
        subst (λ (w : Collected). P w.groups) (collect_repeat prior c s h) p
    collect_candidate_keeps none c s u h p =
        subst (λ (w : Collected). P w.groups) (collect_first c s h)
          (group_candidate_keeps c s.groups p)

    collect_keeps :
        (cs : List StateCandidate) (s t : Collected)
        → collect scope select cs s ≡ ok t
        → P s.groups
        → P t.groups
    unfolding collect
    collect_keeps [] s t h p = let e : s ≡ t = cc in subst (λ (w : Collected). P w.groups) e p
    collect_keeps (c ∷ cs) s t h p =
        let (u, first, rest) = >>=-eq-ok (collect_step scope select c s) _ h in
        collect_keeps cs u t rest (
          collect_candidate_keeps (find c.observation.id s.seen) c s u
            (collect_step-eq-ok c s first) p)

    pub aggregate_candidates_keeps :
        (candidates : List StateCandidate) (groups : Groups)
        → aggregate_candidates scope select candidates ≡ ok groups
        → P []
        → P groups
    unfolding aggregate_candidates
    aggregate_candidates_keeps candidates groups h p =
        let start : Collected = record { groups = []; seen = [] } in
        let (t, run, reached) = >>=-eq-ok (collect scope select candidates start) _ h in
        let g : t.groups ≡ groups = cc in subst P g (collect_keeps candidates start t run p)

  Agrees-nil : Agrees [] []
  unfolding find member
  Agrees-nil j = refl

  held-nil :
      (m : Measure) (cl : Class) (k : StateKeyIdentity) (v : TermIdentity) (e : Text)
      → held m cl k v [] e ≡ false
  unfolding held find member
  held-nil m supported k v e = refl
  held-nil m _ k v e = refl

  -- Where aggregation succeeds, an element is in the set of a class, key and value exactly when a
  -- counted candidate of that class, key and value adds it.
  pub held-aggregate_candidates :
      (m : Measure) (candidates : List StateCandidate) (groups : Groups)
      → aggregate_candidates scope select candidates ≡ ok groups
      → (cl : Class) (k : StateKeyIdentity) (v : TermIdentity) (e : Text)
      → held m cl k v groups e ≡ any (gives m cl k v e) (counted [] candidates)
  unfolding aggregate_candidates
  held-aggregate_candidates m candidates groups h cl k v e =
      let start : Collected = record { groups = []; seen = [] } in
      let (t, run, reached) = >>=-eq-ok (collect scope select candidates start) _ h in
      let g : t.groups ≡ groups = cc in
      rw (← g) (
        ground (
          arith,
          held-collect m candidates start t [] Agrees-nil run cl k v e,
          held-nil m cl k v e,
        ))
