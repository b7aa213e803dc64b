-- ===== src/Query/Qualified.antt =====
-- The candidates that are made of what was read pass the tests of core/temporal
-- (internal/query/projection.go, core/temporal/state.go).
use stacks.Base.{
  ◌∙◌, sym, err, ap, String, ◌≡◌, refl, Bool, true, false, not, ◌&&◌, ◌||◌, Text, same_refl,
  same→eq, text_order, Result, ok, >>=-eq-ok, arith, refuse->>-eq-ok,
}
use mathlib.Core.Path.{subst}
use stacks.Observation.Terms.{Term, absent, text_term, mention_term, entity_term}
use stacks.Temporal.Terms.{
  StateCandidate, StateKey, new_state_key, validate_state_key, validate_term, forbid_mention,
  validate_canonical_term, term_maps_to_state, candidate_matches_observation,
}
use stacks.Query.Snapshots.{ReadObservation}
use stacks.Query.Resolved.{
  canonical_resolved_term, matches_source, resolved_term_matches_source,
  candidate_from_read_observation, replace_error,
}

canonical_resolved_term-valid :
    (term : Term) → canonical_resolved_term term ≡ true → validate_canonical_term term ≡ ok tt
unfolding canonical_resolved_term validate_canonical_term validate_term forbid_mention
canonical_resolved_term-valid absent h = refl
canonical_resolved_term-valid (text_term text) h = ground arith
canonical_resolved_term-valid (mention_term id) h = cc
canonical_resolved_term-valid (entity_term id grounding) h = ground arith

matches_source-maps :
    (resolved source : Term) (grounding : Text)
    → matches_source resolved source grounding ≡ true
    → term_maps_to_state resolved source grounding ≡ true
unfolding matches_source term_maps_to_state
matches_source-maps absent absent grounding h = ground arith
matches_source-maps absent (text_term t2) grounding h = ground arith
matches_source-maps absent (mention_term m2) grounding h = ground arith
matches_source-maps absent (entity_term id2 g2) grounding h = ground arith
matches_source-maps (text_term t) absent grounding h = ground arith
matches_source-maps (text_term t) (text_term t2) grounding h = ground arith
matches_source-maps (text_term t) (mention_term m2) grounding h = ground arith
matches_source-maps (text_term t) (entity_term id2 g2) grounding h = ground arith
matches_source-maps (mention_term m) absent grounding h = ground arith
matches_source-maps (mention_term m) (text_term t2) grounding h = ground arith
matches_source-maps (mention_term m) (mention_term m2) grounding h = ground arith
matches_source-maps (mention_term m) (entity_term id2 g2) grounding h = ground arith
matches_source-maps (entity_term id g) absent grounding h = ground arith
matches_source-maps (entity_term id g) (text_term t2) grounding h = ground arith
matches_source-maps (entity_term id g) (mention_term m2) grounding h = ground arith
matches_source-maps (entity_term id g) (entity_term id2 g2) grounding h =
    let this : id2 ≡ id = same→eq id2 id (ground arith) in rw this (ground (arith, same_refl id))

new_state_key-eq-ok :
    (subject : Term) (predicate : Text) (key : StateKey)
    → new_state_key subject predicate ≡ ok key
    → (key ≡ record { subject = subject; predicate = predicate })
      × (validate_state_key (record { subject = subject; predicate = predicate }) ≡ ok tt)
unfolding new_state_key
new_state_key-eq-ok subject predicate key h =
    let (u, valid, done) =
      >>=-eq-ok (validate_state_key (record { subject = subject; predicate = predicate })) _ h in
    (cc, valid)

replace_error-eq-ok {ℓ} :
    {V : Type ℓ} (message : String) (r : Result V) {v : V}
    → replace_error message r ≡ ok v
    → r ≡ ok v
replace_error-eq-ok message (err inner) h = cc
replace_error-eq-ok message (ok value) h = h

abbrev candidate_of : ReadObservation → StateCandidate
candidate_of item = record {
  key = record { subject = item.subject; predicate = item.observation.statement.predicate };
  value = item.object;
  observation = item.observation;
  subject_grounding_mention_id = item.subject_grounding_mention_id;
  object_grounding_mention_id = item.object_grounding_mention_id;
}

qualifies :
    (item : ReadObservation)
    → resolved_term_matches_source item.subject item.observation.statement.subject
        item.subject_grounding_mention_id
      ≡ true
    → resolved_term_matches_source item.object item.observation.statement.object
        item.object_grounding_mention_id
      ≡ true
    → validate_state_key (candidate_of item).key ≡ ok tt
    → candidate_matches_observation (candidate_of item) ≡ ok tt
unfolding resolved_term_matches_source candidate_matches_observation
qualifies item s o k =
    let (sc, sm) =
      parts _
        (matches_source item.subject item.observation.statement.subject
          item.subject_grounding_mention_id)
        s in
    let (oc, om) =
      parts (canonical_resolved_term item.object)
        (matches_source item.object item.observation.statement.object
          item.object_grounding_mention_id)
        o in
    rw
      (
        k,
        canonical_resolved_term-valid item.object oc,
        same_refl item.observation.statement.predicate,
        matches_source-maps item.subject item.observation.statement.subject
            item.subject_grounding_mention_id sm,
        matches_source-maps item.object item.observation.statement.object
            item.object_grounding_mention_id om,
      )
      refl
  where
    parts : (a b : Bool) → (a && b) ≡ true → (a ≡ true) × (b ≡ true)
    parts a b h = (ground arith, ground arith)

-- The candidate of an observation that was read has this observation, and passes the tests by which
-- core/temporal qualifies a candidate.
pub candidate_from_read_observation-eq-ok :
    (item : ReadObservation) (candidate : StateCandidate)
    → candidate_from_read_observation item ≡ ok candidate
    → (candidate.observation ≡ item.observation) × (candidate_matches_observation candidate ≡ ok tt)
unfolding candidate_from_read_observation
candidate_from_read_observation-eq-ok item candidate h =
    let subject_matches =
      resolved_term_matches_source item.subject item.observation.statement.subject
        item.subject_grounding_mention_id in
    let object_matches =
      resolved_term_matches_source item.object item.observation.statement.object
        item.object_grounding_mention_id in
    let (fit, h1) = refuse->>-eq-ok (not subject_matches || not object_matches) _ _ h in
    let (s, o) = parts subject_matches object_matches fit in
    let (key, k, h2) = >>=-eq-ok _ _ h1 in
    let (same_key, valid) =
      new_state_key-eq-ok item.subject item.observation.statement.predicate key (
        replace_error-eq-ok _ (new_state_key item.subject item.observation.statement.predicate)
          k) in
    let built : record (candidate_of item) { key = key } ≡ candidate =
      let done : ◌≡◌ {A = Result StateCandidate} (ok (record (candidate_of item) { key = key }))
          (ok candidate) =
        h2 in
      cc in
    let this : candidate_of item ≡ candidate =
      ap (λ (k : StateKey). record (candidate_of item) { key = k }) (sym same_key) ∙ built in
    (
      ap (λ (c : StateCandidate). c.observation) (sym this),
      subst (λ c. candidate_matches_observation c ≡ ok tt) this (qualifies item s o valid),
    )
  where
    parts : (a b : Bool) → (not a || not b) ≡ false → (a ≡ true) × (b ≡ true)
    parts a b h = (ground arith, ground arith)
