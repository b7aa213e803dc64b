-- ===== src/Temporal/Comparison/Checks.antt =====
-- `validateSummary` and `validateFact` of core/temporal/comparison.go, with `normalizeObservationIDs`
-- and `normalizeEvidenceIDs`, which differ in their messages only.
use stacks.Base.{
  Bool, true, false, not, ◌&&◌, ◌||◌, List, [], ◌∷◌, Text, is_empty, trim_space, same, is_eq,
  nat_order, text_order, pair_order, member, add, find, store, sort_on, is_some, length, Result, ok,
  refuse, ◌>>=◌, ◌>>◌, ltb, ◌==◌,
}
use stacks.Temporal.Terms.{
  StateKey, Fact, TermIdentity, StateKeyIdentity, identity_for_term, identity_for_state_key,
  compare_state_keys, validate_state_key, validate_canonical_term,
}
use stacks.Temporal.Plans.{selection_window}
use stacks.Temporal.Aggregation.{
  Summary, UnresolvedFact, unresolved_conflict, unresolved_transition,
  unresolved_temporal_uncertainty, unresolved_hypothesis, unresolved_counterevidence_only,
}

unfoldable pub reason_valid : Text → Bool
reason_valid reason =
    same reason unresolved_conflict
    || same reason unresolved_transition
    || same reason unresolved_temporal_uncertainty
    || same reason unresolved_hypothesis
    || same reason unresolved_counterevidence_only

unfoldable pub collect_ids : List Text → List Text → Result (List Text)
collect_ids [] seen = ok []
collect_ids (input ∷ rest) seen = do
  let value = trim_space input
  refuse (is_empty value) "%s summary ID is required"
  refuse (member value seen) "%s summary IDs must be unique"
  values ← collect_ids rest (add value seen)
  ok (value ∷ values)

unfoldable pub normalize_ids : List Text → Result (List Text)
normalize_ids values = do normalized ← collect_ids values []; ok (sort_on (λ id. id) normalized)

abbrev pub no_ids : List Text → Bool
no_ids [] = true
no_ids (x ∷ xs) = false

unfoldable pub validate_fact : Fact → Result Fact
validate_fact fact = do
  validate_state_key fact.key
  validate_canonical_term fact.value
  refuse (no_ids fact.observation_ids) "%s summary fact observation provenance is required"
  refuse (no_ids fact.supporting_evidence_ids && no_ids fact.contradicting_evidence_ids)
      "%s summary fact evidence is required"
  observation_ids ← normalize_ids fact.observation_ids
  supporting ← normalize_ids fact.supporting_evidence_ids
  contradicting ← normalize_ids fact.contradicting_evidence_ids
  ok (record fact {
    observation_ids = observation_ids;
    supporting_evidence_ids = supporting;
    contradicting_evidence_ids = contradicting;
  })

abbrev pub Facts : Type 0
Facts = List (StateKeyIdentity × Fact)

abbrev pub Unresolved : Type 0
Unresolved = List (StateKeyIdentity × UnresolvedFact)

-- The loop over `summary.Facts`.
unfoldable pub collect_facts : List Fact → Facts → Result Facts
collect_facts [] facts = ok facts
collect_facts (fact ∷ rest) facts = do
  normalized ← validate_fact fact
  let identity = identity_for_state_key normalized.key
  refuse (is_some (find identity facts)) "%s summary fact keys must be unique"
  collect_facts rest (store identity normalized facts)

-- The loop over the candidates of one unresolved fact.
unfoldable pub collect_alternatives : StateKey → List Fact → List TermIdentity → Result (List Fact)
collect_alternatives key [] seen = ok []
collect_alternatives key (candidate ∷ rest) seen = do
  refuse (not (is_eq (compare_state_keys candidate.key key)))
      "%s summary unresolved candidate key must match its parent"
  normalized ← validate_fact candidate
  let identity = identity_for_term normalized.value
  refuse (member identity seen) "%s summary unresolved candidate values must be unique"
  others ← collect_alternatives key rest (add identity seen)
  ok (normalized ∷ others)

-- The checks on one unresolved fact, up to its key.
unfoldable pub check_unresolved : UnresolvedFact → Facts → Unresolved → Result (Unit {0})
check_unresolved item facts unresolved = do
  validate_state_key item.key
  refuse (not (reason_valid item.reason)) "%s summary unresolved reason is invalid"
  refuse (length item.candidates == 0) "%s summary unresolved candidates are required"
  refuse (same item.reason unresolved_conflict && ltb (length item.candidates) 2)
      "%s summary conflict requires at least two candidates"
  refuse (is_some (find (identity_for_state_key item.key) unresolved))
      "%s summary unresolved keys must be unique"
  refuse (is_some (find (identity_for_state_key item.key) facts))
      "%s summary key cannot be both resolved and unresolved"

unfoldable pub collect_unresolved : List UnresolvedFact → Facts → Unresolved → Result Unresolved
collect_unresolved [] facts unresolved = ok unresolved
collect_unresolved (item ∷ rest) facts unresolved = do
  check_unresolved item facts unresolved
  candidates ← collect_alternatives item.key item.candidates []
  collect_unresolved rest facts (
      store (identity_for_state_key item.key)
        (record item { candidates = sort_on (λ c. identity_for_term c.value) candidates })
        unresolved)

unfoldable pub validate_summary : Summary → Result (Facts × Unresolved)
validate_summary summary = do
  refuse (not (summary.selection.kind == selection_window)) "%s summary requires a window selection"
  facts ← collect_facts summary.facts []
  unresolved ← collect_unresolved summary.unresolved facts []
  ok (facts, unresolved)
