-- ===== src/Query/Known.antt =====
-- What the index of a snapshot holds for its candidates (internal/query/projection.go).
use stacks.Query.Indexing.{
  state_candidates_equal, citation_valid, Indexing, index_citations, index_observation_evidence,
  link_keys, contribution_from_read_observation, Reading, admit_candidate, read_observation,
  read_observations, validate_coverage_reasons, index_snapshot, citation_metadata_equal,
  citations_equal, differs,
}
use stacks.Base.{
  add, any, member, ◌≡◌, refl, sym, ◌∙◌, true, not, List, [], ◌∷◌, ◌++◌, Text, text_order,
  pair_order, find, store, All, Option, none, some, Result, ok, >>=-eq-ok, arith, refuse->>-eq-ok,
  ◌||◌, is_some, Bool, Bool-cases, same, same_refl, same→eq, inl, inr, false, Order, find-store,
  member-add,
}
use mathlib.Core.Path.{subst}
use stacks.Base.Entries.{All-append, All-map_to}
use stacks.Observation.Claims.{Observation}
use stacks.Temporal.Terms.{StateCandidate}
use stacks.Query.Snapshots.{
  Citation, CitationKey, citation_key, ProjectionIndex, ReadObservation, ReadSnapshot,
}
use stacks.Temporal.Aggregation.{observations_equal}
use stacks.Query.Resolved.{candidate_from_read_observation}
use stacks.Query.Authority.{validate_snapshot_authority}
use stacks.Query.Qualified.{candidate_from_read_observation-eq-ok}

-- The observation has a contribution in the index, and a citation for each of its links.
abbrev pub Known : ProjectionIndex → Observation → Type 0
Known index value =
    (is_some (find value.id index.contributions) ≡ true)
    × ((key : CitationKey)
        → member key (link_keys value.evidence) ≡ true
        → is_some (find key index.citations) ≡ true)

-- What the first index has, the second has too.
abbrev Grows : ProjectionIndex → ProjectionIndex → Type 0
Grows i j =
    ((id : Text)
      → is_some (find id i.contributions) ≡ true
      → is_some (find id j.contributions) ≡ true)
    × ((key : CitationKey)
        → is_some (find key i.citations) ≡ true
        → is_some (find key j.citations) ≡ true)

Known-Grows :
    (i j : ProjectionIndex) (value : Observation) → Grows i j → Known i value → Known j value
Known-Grows i j value (contributions, citations) (known, cited) =
    (contributions value.id known, λ key linked. citations key (cited key linked))

stored {ℓ κ} :
    {K : Type ℓ} {V : Type κ} ⦃o : Order K⦄ (j k : K) (v : V) (m : List (K × V))
    → is_some (find j (store k v m)) ≡ (same k j || is_some (find j m))
stored j k v m = rw find-store (ground arith)

abbrev Covered : Indexing → Type 0
Covered s =
    (key : CitationKey)
    → member key s.item_citations ≡ true
    → is_some (find key s.index.citations) ≡ true

index_citations-Covered :
    (links : List CitationKey) (citations : List Citation) (s t : Indexing)
    → index_citations links citations s ≡ ok t
    → Covered s
    → Covered t × Grows s.index t.index
unfolding index_citations
index_citations-Covered links [] s t h covered =
    let this : s ≡ t = cc in
    subst (λ u. Covered u × Grows s.index u.index) this (covered, ((λ id e. e), (λ key e. e)))
index_citations-Covered links (c ∷ citations) s t h covered =
    let (valid, h1) = refuse->>-eq-ok (not (citation_valid c)) _ _ h in
    let (linked, h2) = refuse->>-eq-ok (not (member (citation_key c) links)) _ _ h1 in
    let (agreed, h3) =
      refuse->>-eq-ok (differs citation_metadata_equal (find c.evidence_id s.metadata) c) _ _ h2 in
    let (equal, h4) =
      refuse->>-eq-ok (differs citations_equal (find (citation_key c) s.index.citations) c) _ _
        h3 in
    let next : Indexing = record {
      index = record s.index { citations = store (citation_key c) c s.index.citations };
      metadata = store c.evidence_id c s.metadata;
      item_citations = add (citation_key c) s.item_citations;
    } in
    let (all, (contributions, cited)) = index_citations-Covered links citations next t h4 (λ key e.
      ground (
        arith,
        covered key,
        e,
        member-add key (citation_key c) s.item_citations,
        stored key (citation_key c) c s.index.citations,
      )) in
    (
      all,
      (
        contributions,
        λ key e. cited key (ground (arith, e, stored key (citation_key c) c s.index.citations)),
      ),
    )

none_such {ℓ} :
    {K : Type ℓ} ⦃o : Order K⦄ (p : K → Bool) (k : K) (xs : List K)
    → any p xs ≡ false
    → member k xs ≡ true
    → p k ≡ false
unfolding any member
none_such p k [] h m = cc
none_such p k (x ∷ xs) h m = elim (Bool-cases (same x k)) [
  | inl e ↦ subst (λ y. p y ≡ false) (same→eq x k e) (ground (arith, h))
  | inr e ↦ none_such p k xs (ground (arith, h)) (ground (arith, m, e))
]

nothing :
    (index : ProjectionIndex) (key : CitationKey)
    → member key [] ≡ true
    → is_some (find key index.citations) ≡ true
unfolding member
nothing index key e = cc

index_observation_evidence-Known :
    (item : ReadObservation) (index : ProjectionIndex) (metadata : List (Text × Citation))
    (t : Indexing)
    → index_observation_evidence item index metadata ≡ ok t
    → ((key : CitationKey)
        → member key (link_keys item.observation.evidence) ≡ true
        → is_some (find key t.index.citations) ≡ true)
      × Grows index t.index
unfolding index_observation_evidence
index_observation_evidence-Known item index metadata t h =
    let (s, run, h1) =
      >>=-eq-ok
        (index_citations (link_keys item.observation.evidence) item.evidence
          (record { index = index; metadata = metadata; item_citations = [] }))
        _ h in
    let (complete, h2) =
      refuse->>-eq-ok
        (any (λ key. not (member key s.item_citations)) (link_keys item.observation.evidence)) _ _
        h1 in
    let this : s ≡ t = cc in
    let (covered, grows) =
      index_citations-Covered (link_keys item.observation.evidence) item.evidence _ s run
        (nothing index) in
    subst
      (λ u.
        ((key : CitationKey)
          → member key (link_keys item.observation.evidence) ≡ true
          → is_some (find key u.index.citations) ≡ true)
        × Grows index u.index)
      this
      (
        (λ key linked. covered key (
            ground (
              arith,
              none_such (λ key. not (member key s.item_citations)) key
                  (link_keys item.observation.evidence) complete linked,
            ))),
        grows,
      )

admit_candidate-Known :
    (prior : Option StateCandidate) (item : ReadObservation) (candidate : StateCandidate)
    (s t : Reading)
    → admit_candidate prior item candidate s ≡ ok t
    → candidate.observation ≡ item.observation
    → ((key : CitationKey)
        → member key (link_keys item.observation.evidence) ≡ true
        → is_some (find key s.index.citations) ≡ true)
    → All (λ c. Known s.index c.observation) s.candidates
    → All (λ c. Known t.index c.observation) t.candidates
unfolding admit_candidate
admit_candidate-Known none item candidate s t h this_item cited known =
    let next : Reading = record {
      index = record s.index {
        contributions =
            store item.observation.id (contribution_from_read_observation item)
              s.index.contributions;
      };
      metadata = s.metadata;
      seen = store item.observation.id candidate s.seen;
      candidates = s.candidates ++ candidate ∷ [];
    } in
    let done : ◌≡◌ {A = Result Reading} (ok next) (ok t) = h in
    let this : next ≡ t = cc in
    let put = λ (id : Text).
      stored id item.observation.id (contribution_from_read_observation item)
        s.index.contributions in
    let here : Known next.index item.observation =
      (put item.observation.id ∙ rw (same_refl item.observation.id) refl, cited) in
    subst (λ u. All (λ c. Known u.index c.observation) u.candidates) this
      (All-append (λ c. Known next.index c.observation) s.candidates (candidate ∷ [])
        (All-map_to _ _ s.candidates
          (λ c.
            Known-Grows s.index next.index c.observation
              ((λ id e. ground (arith, e, put id)), λ key e. e))
          known)
        (subst (Known next.index) (sym this_item) here, tt))
admit_candidate-Known (some prior) item candidate s t h this_item cited known =
    let (same_payload, h1) =
      refuse->>-eq-ok (not (observations_equal prior.observation candidate.observation)) _ _ h in
    let (same_mapping, h2) =
      refuse->>-eq-ok (not (state_candidates_equal prior candidate)) _ _ h1 in
    let this : s ≡ t = cc in
    subst (λ u. All (λ c. Known u.index c.observation) u.candidates) this known

read_observation-Known :
    (item : ReadObservation) (s t : Reading)
    → read_observation item s ≡ ok t
    → All (λ c. Known s.index c.observation) s.candidates
    → All (λ c. Known t.index c.observation) t.candidates
unfolding read_observation
read_observation-Known item s t h known =
    let (candidate, c, h1) = >>=-eq-ok (candidate_from_read_observation item) _ h in
    let (indexed, x, h2) = >>=-eq-ok (index_observation_evidence item s.index s.metadata) _ h1 in
    let (cited, grows) = index_observation_evidence-Known item s.index s.metadata indexed x in
    admit_candidate-Known (find item.observation.id s.seen) item candidate _ t h2
      (candidate_from_read_observation-eq-ok item candidate c).0 cited
      (All-map_to _ _ s.candidates (λ c. Known-Grows s.index indexed.index c.observation grows)
        known)

read_observations-Known :
    (items : List ReadObservation) (s t : Reading)
    → read_observations items s ≡ ok t
    → All (λ c. Known s.index c.observation) s.candidates
    → All (λ c. Known t.index c.observation) t.candidates
unfolding read_observations
read_observations-Known [] s t h known =
    let this : s ≡ t = cc in
    subst (λ u. All (λ c. Known u.index c.observation) u.candidates) this known
read_observations-Known (item ∷ items) s t h known =
    let (next, r, h1) = >>=-eq-ok (read_observation item s) _ h in
    read_observations-Known items next t h1 (read_observation-Known item s next r known)

ok_inj {ℓ} : {V : Type ℓ} {a b : V} → ok a ≡ ok b → a ≡ b
ok_inj h = cc

-- The index of an accepted snapshot has the contribution of every candidate, and a citation for
-- every link of its observation.
pub index_snapshot-Known :
    (entity_ids : List Text) (snapshot : ReadSnapshot) (candidates : List StateCandidate)
    (index : ProjectionIndex)
    → index_snapshot entity_ids snapshot ≡ ok (candidates, index)
    → All (λ c. Known index c.observation) candidates
unfolding index_snapshot
index_snapshot-Known entity_ids snapshot candidates index h =
    let (u, authority, h1) =
      >>=-eq-ok (validate_snapshot_authority entity_ids snapshot.entities) _ h in
    let (t, r, h2) =
      >>=-eq-ok
        (read_observations snapshot.observations (record {
          index = record { contributions = []; citations = [] };
          metadata = [];
          seen = [];
          candidates = [];
        }))
        _ h1 in
    let (v, coverage, h3) = >>=-eq-ok (validate_coverage_reasons snapshot.coverage) _ h2 in
    let done : (t.candidates, t.index) ≡ (candidates, index) = ok_inj h3 in
    subst (λ (p : List StateCandidate × ProjectionIndex). All (λ c. Known p.1 c.observation) p.0)
      done (read_observations-Known snapshot.observations _ t r tt)
