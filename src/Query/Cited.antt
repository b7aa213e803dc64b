-- ===== src/Query/Cited.antt =====
-- The projection of the facts of a summary over the index of a snapshot
-- (internal/query/projection.go).
use mathlib.Core.Path.{subst}
use stacks.Base.{
  ◌||◌, is_some, Bool, Bool-cases, same, same_refl, same→eq, inl, inr, member-add, ◌≡◌, refl, sym,
  ◌∙◌, true, ◌&&◌, List, [], ◌∷◌, map, Text, text_order, pair_order, pair_cmp, nat_order, find, All,
  Option, none, some, ok, arith, String, any, member, add_all,
}
use stacks.Observation.Claims.{Observation, evidence_supporting, evidence_contradicting, link_key}
use stacks.Observation.Digests.{EvidenceLink}
use stacks.Temporal.Terms.{StateCandidate, identity_for_term, identity_for_state_key, Fact}
use stacks.Temporal.Plans.{KnowledgeScope, TemporalSelection}
use stacks.Temporal.Eligibility.{valid_time_eligibility}
use stacks.Temporal.Aggregation.{aggregate_window, Summary, ValidTimeSelector}
use stacks.Temporal.Aggregation.Provenance.{supported, Measure}
use stacks.Temporal.Aggregation.Measures.{
  observations_measure, supporting_measure, contradicting_measure, cites,
}
use stacks.Temporal.Aggregation.Counting.{counted, gives}
use stacks.Temporal.Aggregation.Resolved.{IsUncontested, aggregate_window-IsUncontested}
use stacks.Query.Snapshots.{Citation, Contribution, CitationKey, ProjectionIndex, ReadSnapshot}
use stacks.Query.Indexing.{index_snapshot}
use stacks.Query.Known.{Known, index_snapshot-Known}
use stacks.Query.Projections.{
  CitedFact, project_contributions, project_citations, project_fact, project_facts,
}

is_some-cases {ℓ} : {V : Type ℓ} (o : Option V) → is_some o ≡ true → (v : V) × (o ≡ some v)
is_some-cases none h = cc
is_some-cases (some v) h = (v, refl)

All-members {ℓ} :
    (xs : List Text) (P : Text → Type ℓ) → ((x : Text) → member x xs ≡ true → P x) → All P xs
unfolding member
All-members [] P h = tt
All-members (x ∷ xs) P h =
    (h x (rw (same_refl x) refl), All-members xs P (λ y e. h y (ground (arith, e))))

-- What counts is one of the candidates.
any-counted :
    (scope : KnowledgeScope) (select : ValidTimeSelector) (p : StateCandidate → Bool)
    (ids : List Text) (cs : List StateCandidate)
    → any p (counted scope select ids cs) ≡ true
    → any p cs ≡ true
unfolding counted any
any-counted scope select p ids [] h = h
any-counted scope select p ids (c ∷ cs) h =
    ground (arith, h, any-counted scope select p (c.observation.id ∷ ids) cs)

one_of {ℓ κ} :
    {A : Type ℓ} (p : A → Bool) (P : A → Type κ) (b : Bool) (xs : List A)
    → any p xs ≡ true
    → All P xs
    → ((x : A) → P x → p x ≡ true → b ≡ true)
    → b ≡ true
unfolding any
one_of p P b [] h all step = cc
one_of p P b (x ∷ xs) h all step = elim (Bool-cases (p x)) [
  | inl e ↦ step x all.0 e
  | inr e ↦ one_of p P b xs (ground (arith, h, e)) all.1 step
]

member-link_keys :
    (links : List EvidenceLink) (e role : Text) (keys : List CitationKey)
    → (any (λ link. same link.role role && same link.evidence_id e) links || member (e, role) keys)
      ≡ true
    → member (e, role) (add_all (map link_key links) keys) ≡ true
unfolding any add_all pair_cmp
member-link_keys [] e role keys h = ground (arith, h)
member-link_keys (link ∷ links) e role keys h =
    member-link_keys links e role _ (ground (arith, h, member-add (e, role) (link_key link) keys))

found_contributions :
    (message : String) (ids : List Text) (index : ProjectionIndex)
    → All (λ id. is_some (find id index.contributions) ≡ true) ids
    → (cs : List Contribution) × (project_contributions message ids index ≡ ok cs)
unfolding project_contributions
found_contributions message [] index h = ([], refl)
found_contributions message (id ∷ ids) index (here, rest) =
    let (cs, e) = found_contributions message ids index rest in
    let (c, f) = is_some-cases (find id index.contributions) here in (c ∷ cs, rw (f, e) refl)

found_citations :
    (ids : List Text) (role : Text) (index : ProjectionIndex)
    → All (λ id. is_some (find (id, role) index.citations) ≡ true) ids
    → (cs : List Citation) × (project_citations ids role index ≡ ok cs)
unfolding project_citations
found_citations [] role index h = ([], refl)
found_citations (id ∷ ids) role index (here, rest) =
    let (cs, e) = found_citations ids role index rest in
    let (c, f) = is_some-cases (find (id, role) index.citations) here in (c ∷ cs, rw (f, e) refl)

cited_found :
    (index : ProjectionIndex) (value : Observation) (role e : Text)
    → Known index value
    → cites role value e ≡ true
    → is_some (find (e, role) index.citations) ≡ true
unfolding cites
cited_found index value role e (known, cited) h =
    cited (e, role) (member-link_keys value.evidence e role [] (ground (arith, h)))

module _ (scope : KnowledgeScope) (select : ValidTimeSelector) (candidates : List StateCandidate)
    (index : ProjectionIndex) (known : All (λ c. Known index c.observation) candidates) where
  -- What a counted candidate gives to a set of the fact, the index has.
  given_found :
      (m : Measure) (fact : Fact) (e : Text) (b : Bool)
      → any
          (gives scope select m supported
            (identity_for_state_key fact.key)
            (identity_for_term fact.value)
            e)
          (counted scope select [] candidates)
        ≡ true
      → ((value : Observation) → Known index value → m.adds value e ≡ true → b ≡ true)
      → b ≡ true
  given_found m fact e b h step =
      one_of _ (λ c. Known index c.observation) b candidates
        (any-counted scope select _ [] candidates h) known
        (λ c k g. step c.observation k (ground (arith, g)))

  project_fact_found :
      (fact : Fact)
      → IsUncontested scope select candidates fact
      → (cited : CitedFact) × (project_fact fact index ≡ ok cited)
  unfolding project_fact
  project_fact_found fact u =
      let (cs, c) =
        found_contributions "observation contribution is missing" fact.observation_ids index (
          All-members fact.observation_ids _ (λ id e.
            given_found observations_measure fact id _ (sym (u.cited id) ∙ e) (λ value k a.
              subst (λ i. is_some (find i index.contributions) ≡ true) (same→eq value.id id a)
                k.0))) in
      let (ss, s) = found_citations fact.supporting_evidence_ids evidence_supporting index (
        All-members fact.supporting_evidence_ids _ (λ id e.
          given_found supporting_measure fact id _ (sym (u.supports id) ∙ e)
            (λ value k a. cited_found index value evidence_supporting id k a))) in
      let (ds, d) = found_citations fact.contradicting_evidence_ids evidence_contradicting index (
        All-members fact.contradicting_evidence_ids _ (λ id e.
          given_found contradicting_measure fact id _ (sym (u.contradicts id) ∙ e)
            (λ value k a. cited_found index value evidence_contradicting id k a))) in
      (
        record {
          key = fact.key;
          value = fact.value;
          contributions = cs;
          supporting_citations = ss;
          contradicting_citations = ds;
        },
        rw (c, s, d) refl,
      )

  project_facts_found :
      (facts : List Fact)
      → All (IsUncontested scope select candidates) facts
      → (cited : List CitedFact) × (project_facts facts index ≡ ok cited)
  unfolding project_facts
  project_facts_found [] h = ([], refl)
  project_facts_found (fact ∷ facts) (here, rest) =
      let (c, e) = project_fact_found fact here in
      let (cs, f) = project_facts_found facts rest in (c ∷ cs, rw (e, f) refl)

-- The facts of a window summary of the candidates of a snapshot can be projected over its index: no
-- contribution and no citation is missing.
pub project_facts-aggregate_window :
    (entity_ids : List Text) (snapshot : ReadSnapshot) (candidates : List StateCandidate)
    (index : ProjectionIndex) (selection : TemporalSelection) (scope : KnowledgeScope)
    (summary : Summary)
    → index_snapshot entity_ids snapshot ≡ ok (candidates, index)
    → aggregate_window selection scope candidates ≡ ok summary
    → (cited : List CitedFact) × (project_facts summary.facts index ≡ ok cited)
project_facts-aggregate_window entity_ids snapshot candidates index selection scope summary h a =
    project_facts_found scope (valid_time_eligibility selection.start selection.end) candidates
      index (index_snapshot-Known entity_ids snapshot candidates index h) summary.facts
      (aggregate_window-IsUncontested selection scope candidates summary a)
