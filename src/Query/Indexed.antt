-- ===== src/Query/Indexed.antt =====
-- The index of a snapshot, and what a projection takes from it (internal/query/projection.go).
use stacks.Query.Indexing.{
  state_candidates_equal, citation_valid, Indexing, index_citations, index_observation_evidence,
  link_keys, contribution_from_read_observation, Reading, admit_candidate, read_observation,
  read_observations, validate_coverage_reasons, index_snapshot, citation_metadata_equal,
  citations_equal, differs,
}
use stacks.Base.{
  add, any, member, ◌≡◌, refl, sym, ap, ◌∙◌, true, not, List, [], ◌∷◌, ◌++◌, map, Text, text_order,
  pair_order, find, store, All, Option, none, some, Result, ok, >>=-eq-ok, arith, refuse->>-eq-ok,
  String,
}
use mathlib.Core.Path.{subst}
use stacks.Base.Entries.{All-store, All-find}
use stacks.Observation.Claims.{evidence_supporting, evidence_contradicting}
use stacks.Temporal.Terms.{StateCandidate}
use stacks.Temporal.Terms as temporal
use stacks.Query.Snapshots.{
  Citation, Contribution, CitationKey, citation_key, ProjectionIndex, ReadObservation, ReadSnapshot,
}
use stacks.Temporal.Aggregation.{observations_equal}
use stacks.Query.Resolved.{candidate_from_read_observation}
use stacks.Query.Authority.{validate_snapshot_authority}
use stacks.Query.Projections.{
  CitedFact, required, project_contributions, project_citations, project_fact,
}

-- Each contribution stands under its observation.
abbrev OfObservation : Text → Contribution → Type 0
OfObservation id contribution = contribution.observation_id ≡ id

-- Each citation stands under its evidence and role, and is valid.
abbrev OfEvidence : CitationKey → Citation → Type 0
OfEvidence key citation = (citation_key citation ≡ key) × (citation_valid citation ≡ true)

abbrev pub IsIndex : ProjectionIndex → Type 0
IsIndex index =
    All (λ e. OfObservation e.0 e.1) index.contributions
    × All (λ e. OfEvidence e.0 e.1) index.citations

index_citations-IsIndex :
    (links : List CitationKey) (citations : List Citation) (s t : Indexing)
    → index_citations links citations s ≡ ok t
    → IsIndex s.index
    → IsIndex t.index
unfolding index_citations
index_citations-IsIndex links [] s t h i =
    let this : s ≡ t = cc in subst (λ u. IsIndex u.index) this i
index_citations-IsIndex links (c ∷ citations) s t h (contributions, cited) =
    let (valid, h1) = refuse->>-eq-ok (not (citation_valid c)) _ _ h in
    let (linked, h2) = refuse->>-eq-ok (not (member (citation_key c) links)) _ _ h1 in
    let (agreed, h3) =
      refuse->>-eq-ok (differs citation_metadata_equal (find c.evidence_id s.metadata) c) _ _ h2 in
    let (equal, h4) =
      refuse->>-eq-ok (differs citations_equal (find (citation_key c) s.index.citations) c) _ _
        h3 in
    let next : Indexing = record {
      index = record s.index { citations = store (citation_key c) c s.index.citations };
      metadata = store c.evidence_id c s.metadata;
      item_citations = add (citation_key c) s.item_citations;
    } in
    index_citations-IsIndex links citations next t h4 (
      contributions,
      All-store OfEvidence (citation_key c) c s.index.citations (refl, ground (arith, valid)) cited,
    )

index_observation_evidence-IsIndex :
    (item : ReadObservation) (index : ProjectionIndex) (metadata : List (Text × Citation))
    (t : Indexing)
    → index_observation_evidence item index metadata ≡ ok t
    → IsIndex index
    → IsIndex t.index
unfolding index_observation_evidence
index_observation_evidence-IsIndex item index metadata t h i =
    let (s, run, h1) =
      >>=-eq-ok
        (index_citations (link_keys item.observation.evidence) item.evidence
          (record { index = index; metadata = metadata; item_citations = [] }))
        _ h in
    let (complete, h2) =
      refuse->>-eq-ok
        (any (λ key. not (member key s.item_citations)) (link_keys item.observation.evidence)) _ _
        h1 in
    let this : s ≡ t = cc in
    subst (λ u. IsIndex u.index) this
      (index_citations-IsIndex (link_keys item.observation.evidence) item.evidence _ s run i)

admit_candidate-IsIndex :
    (prior : Option StateCandidate) (item : ReadObservation) (candidate : StateCandidate)
    (s t : Reading)
    → admit_candidate prior item candidate s ≡ ok t
    → IsIndex s.index
    → IsIndex t.index
unfolding admit_candidate contribution_from_read_observation
admit_candidate-IsIndex none item candidate s t h (contributions, cited) =
    let next : Reading = record {
      index = record s.index {
        contributions =
            store item.observation.id (contribution_from_read_observation item)
              s.index.contributions;
      };
      metadata = s.metadata;
      seen = store item.observation.id candidate s.seen;
      candidates = s.candidates ++ candidate ∷ [];
    } in
    let done : ◌≡◌ {A = Result Reading} (ok next) (ok t) = h in
    let this : next ≡ t = cc in
    subst (λ u. IsIndex u.index) this
      (
        All-store OfObservation item.observation.id (contribution_from_read_observation item)
            s.index.contributions refl contributions,
        cited,
      )
admit_candidate-IsIndex (some prior) item candidate s t h i =
    let (same_payload, h1) =
      refuse->>-eq-ok (not (observations_equal prior.observation candidate.observation)) _ _ h in
    let (same_mapping, h2) =
      refuse->>-eq-ok (not (state_candidates_equal prior candidate)) _ _ h1 in
    let this : s ≡ t = cc in subst (λ u. IsIndex u.index) this i

read_observation-IsIndex :
    (item : ReadObservation) (s t : Reading)
    → read_observation item s ≡ ok t
    → IsIndex s.index
    → IsIndex t.index
unfolding read_observation
read_observation-IsIndex item s t h i =
    let (candidate, c, h1) = >>=-eq-ok (candidate_from_read_observation item) _ h in
    let (indexed, x, h2) = >>=-eq-ok (index_observation_evidence item s.index s.metadata) _ h1 in
    admit_candidate-IsIndex (find item.observation.id s.seen) item candidate _ t h2
      (index_observation_evidence-IsIndex item s.index s.metadata indexed x i)

read_observations-IsIndex :
    (items : List ReadObservation) (s t : Reading)
    → read_observations items s ≡ ok t
    → IsIndex s.index
    → IsIndex t.index
unfolding read_observations
read_observations-IsIndex [] s t h i = let this : s ≡ t = cc in subst (λ u. IsIndex u.index) this i
read_observations-IsIndex (item ∷ items) s t h i =
    let (next, r, h1) = >>=-eq-ok (read_observation item s) _ h in
    read_observations-IsIndex items next t h1 (read_observation-IsIndex item s next r i)

ok_inj {ℓ} : {V : Type ℓ} {a b : V} → ok a ≡ ok b → a ≡ b
ok_inj h = cc

-- A snapshot that is accepted gives an index in which each contribution stands under its
-- observation, and each citation is valid and stands under its evidence and role.
pub index_snapshot-IsIndex :
    (entity_ids : List Text) (snapshot : ReadSnapshot) (candidates : List StateCandidate)
    (index : ProjectionIndex)
    → index_snapshot entity_ids snapshot ≡ ok (candidates, index)
    → IsIndex index
unfolding index_snapshot
index_snapshot-IsIndex entity_ids snapshot candidates index h =
    let (u, authority, h1) =
      >>=-eq-ok (validate_snapshot_authority entity_ids snapshot.entities) _ h in
    let (t, r, h2) =
      >>=-eq-ok
        (read_observations snapshot.observations (record {
          index = record { contributions = []; citations = [] };
          metadata = [];
          seen = [];
          candidates = [];
        }))
        _ h1 in
    let (v, coverage, h3) = >>=-eq-ok (validate_coverage_reasons snapshot.coverage) _ h2 in
    let done : (t.candidates, t.index) ≡ (candidates, index) = ok_inj h3 in
    subst (λ (p : List StateCandidate × ProjectionIndex). IsIndex p.1) done
      (read_observations-IsIndex snapshot.observations _ t r (tt, tt))

required-eq-ok {ℓ} :
    {V : Type ℓ} (message : String) (o : Option V) {v : V} → required message o ≡ ok v → o ≡ some v
required-eq-ok message none h = cc
required-eq-ok message (some v) h = cc

project_contributions-eq-ok :
    (message : String) (ids : List Text) (index : ProjectionIndex) {result : List Contribution}
    → IsIndex index
    → project_contributions message ids index ≡ ok result
    → map (λ c. c.observation_id) result ≡ ids
unfolding project_contributions
project_contributions-eq-ok message [] index i h = ap (map (λ c. c.observation_id)) (sym (ok_inj h))
project_contributions-eq-ok message (id ∷ ids) index i h =
    let (c, found, h1) = >>=-eq-ok (required message (find id index.contributions)) _ h in
    let (rest, r, h2) = >>=-eq-ok (project_contributions message ids index) _ h1 in
    let here : c.observation_id ≡ id =
      All-find OfObservation id c index.contributions i.0
        (required-eq-ok message (find id index.contributions) found) in
    ap (map (λ c. c.observation_id)) (sym (ok_inj h2))
    ∙ cc (here, project_contributions-eq-ok message ids index i r)

project_citations-eq-ok :
    (ids : List Text) (role : Text) (index : ProjectionIndex) {result : List Citation}
    → IsIndex index
    → project_citations ids role index ≡ ok result
    → (map citation_key result ≡ map (λ id. (id, role)) ids)
      × All (λ c. citation_valid c ≡ true) result
unfolding project_citations
project_citations-eq-ok [] role index {result} i h =
    subst (λ r. (map citation_key r ≡ []) × All (λ c. citation_valid c ≡ true) r) (ok_inj h)
      (refl, tt)
project_citations-eq-ok (id ∷ ids) role index {result} i h =
    let (c, found, h1) =
      >>=-eq-ok (required "fact citation is missing" (find (id, role) index.citations)) _ h in
    let (rest, r, h2) = >>=-eq-ok (project_citations ids role index) _ h1 in
    let (key, valid) =
      All-find OfEvidence (id, role) c index.citations i.1
        (required-eq-ok _ (find (id, role) index.citations) found) in
    let (keys, all_valid) = project_citations-eq-ok ids role index i r in
    subst
      (λ r.
        (map citation_key r ≡ map (λ i. (i, role)) (id ∷ ids))
        × All (λ c. citation_valid c ≡ true) r)
      (ok_inj h2) (cc (key, keys), (valid, all_valid))

-- A fact of a query with the key, the value and the provenance of a fact of core/temporal.
abbrev pub Projects : temporal.Fact → CitedFact → Type 0
Projects value fact =
    (fact.key ≡ value.key)
    × (fact.value ≡ value.value)
    × (map (λ c. c.observation_id) fact.contributions ≡ value.observation_ids)
    × (map citation_key fact.supporting_citations
        ≡ map (λ id. (id, evidence_supporting)) value.supporting_evidence_ids)
    × (map citation_key fact.contradicting_citations
        ≡ map (λ id. (id, evidence_contradicting)) value.contradicting_evidence_ids)
    × All (λ c. citation_valid c ≡ true) fact.supporting_citations
    × All (λ c. citation_valid c ≡ true) fact.contradicting_citations

-- A fact that is projected over the index of an accepted snapshot keeps its key and value, has the
-- contributions of its observations, in their order, and a valid citation for each item of its
-- supporting and contradicting evidence, in that role and order.
pub project_fact-eq-ok :
    (entity_ids : List Text) (snapshot : ReadSnapshot) (candidates : List StateCandidate)
    (index : ProjectionIndex) (value : temporal.Fact) (fact : CitedFact)
    → index_snapshot entity_ids snapshot ≡ ok (candidates, index)
    → project_fact value index ≡ ok fact
    → Projects value fact
unfolding project_fact
project_fact-eq-ok entity_ids snapshot candidates index value fact s h =
    let i = index_snapshot-IsIndex entity_ids snapshot candidates index s in
    let (cs, c, h1) =
      >>=-eq-ok
        (project_contributions "observation contribution is missing" value.observation_ids index) _
        h in
    let (ss, supports, h2) =
      >>=-eq-ok (project_citations value.supporting_evidence_ids evidence_supporting index) _ h1 in
    let (ds, contradicts, h3) =
      >>=-eq-ok (project_citations value.contradicting_evidence_ids evidence_contradicting index) _
        h2 in
    let this = ok_inj h3 in
    let observed = project_contributions-eq-ok _ value.observation_ids index i c in
    let (supporting, sv) =
      project_citations-eq-ok value.supporting_evidence_ids evidence_supporting index i supports in
    let (contradicting, dv) =
      project_citations-eq-ok value.contradicting_evidence_ids evidence_contradicting index i
        contradicts in
    subst (Projects value) this (refl, refl, observed, supporting, contradicting, sv, dv)
