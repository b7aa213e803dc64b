-- ===== src/Query/Projections.antt =====
-- internal/query/projection.go: facts of core/temporal with their contributions and citations. The
-- facts, items and links of internal/query/result.go.
use stacks.Base.{
  List, [], ◌∷◌, Option, none, some, Text, text_order, pair_order, list_order, nat_order, find,
  String, Result, ok, err, ◌>>=◌,
}
use stacks.Observation.Terms.{Term}
use stacks.Observation.Claims.{evidence_supporting, evidence_contradicting}
use stacks.Temporal.Terms.{StateKey}
use stacks.Temporal.Terms as temporal
use stacks.Temporal.Plans.{TemporalSelection}
use stacks.Temporal.Aggregation as aggregation
use stacks.Temporal.Causal as causal
use stacks.Query.Snapshots.{Citation, Contribution, ProjectionIndex}

-- `Fact` of internal/query.
pub record CitedFact : Type 0 where
  pub key : StateKey
  pub value : Term
  pub contributions : List Contribution
  pub supporting_citations : List Citation
  pub contradicting_citations : List Citation

pub record UnresolvedItem : Type 0 where
  pub key : StateKey
  pub reason : Text
  pub candidates : List CitedFact

-- `PointInTimeResult` and `WindowResult`, which have the same fields.
pub record WindowResult : Type 0 where
  pub selection : TemporalSelection
  pub facts : List CitedFact
  pub unresolved : List UnresolvedItem

-- `CausalLink` of internal/query.
pub record CitedLink : Type 0 where
  pub cause : Term
  pub effect : Term
  pub contributions : List Contribution
  pub supporting_citations : List Citation
  pub contradicting_citations : List Citation

pub record CausalChainResult : Type 0 where
  pub selection : TemporalSelection
  pub links : List CitedLink

-- `value, exists := m[key]`, with the error for a missing key.
abbrev pub required {ℓ} : {V : Type ℓ} → String → Option V → Result V
required message none = err message
required message (some value) = ok value

-- The loops over the observation identifiers of a fact and of a causal link, which differ in the
-- error.
unfoldable pub project_contributions :
    String → List Text → ProjectionIndex → Result (List Contribution)
project_contributions message [] index = ok []
project_contributions message (observation_id ∷ ids) index = do
  contribution ← required message (find observation_id index.contributions)
  contributions ← project_contributions message ids index
  ok (contribution ∷ contributions)

unfoldable pub project_citations : List Text → Text → ProjectionIndex → Result (List Citation)
project_citations [] role index = ok []
project_citations (evidence_id ∷ ids) role index = do
  citation ← required "fact citation is missing" (find (evidence_id, role) index.citations)
  citations ← project_citations ids role index
  ok (citation ∷ citations)

unfoldable pub project_fact : temporal.Fact → ProjectionIndex → Result CitedFact
project_fact value index = do
  contributions ←
      project_contributions "observation contribution is missing" value.observation_ids index
  supporting ← project_citations value.supporting_evidence_ids evidence_supporting index
  contradicting ← project_citations value.contradicting_evidence_ids evidence_contradicting index
  ok (record {
    key = value.key;
    value = value.value;
    contributions = contributions;
    supporting_citations = supporting;
    contradicting_citations = contradicting;
  })

unfoldable pub project_fact_pointer :
    Option temporal.Fact → ProjectionIndex → Result (Option CitedFact)
project_fact_pointer none index = ok none
project_fact_pointer (some value) index = do
  projected ← project_fact value index
  ok (some projected)

-- The loop over facts.
unfoldable pub project_facts : List temporal.Fact → ProjectionIndex → Result (List CitedFact)
project_facts [] index = ok []
project_facts (fact ∷ facts) index = do
  projected ← project_fact fact index
  rest ← project_facts facts index
  ok (projected ∷ rest)

-- The loop over unresolved facts.
unfoldable pub project_unresolved :
    List aggregation.UnresolvedFact → ProjectionIndex → Result (List UnresolvedItem)
project_unresolved [] index = ok []
project_unresolved (item ∷ items) index = do
  candidates ← project_facts item.candidates index
  rest ← project_unresolved items index
  ok (record { key = item.key; reason = item.reason; candidates = candidates } ∷ rest)

-- `projectStateMaterial`, and `projectPoint` and `projectWindow`, which add the selection.
unfoldable pub project_window : aggregation.Summary → ProjectionIndex → Result WindowResult
project_window summary index = do
  facts ← project_facts summary.facts index
  unresolved ← project_unresolved summary.unresolved index
  ok (record { selection = summary.selection; facts = facts; unresolved = unresolved })

-- The loop over causal links.
unfoldable pub project_links : List causal.CausalLink → ProjectionIndex → Result (List CitedLink)
project_links [] index = ok []
project_links (value ∷ values) index = do
  contributions ←
      project_contributions "causal observation contribution is missing" value.observation_ids index
  supporting ← project_citations value.supporting_evidence_ids evidence_supporting index
  contradicting ← project_citations value.contradicting_evidence_ids evidence_contradicting index
  rest ← project_links values index
  ok (
      record {
        cause = value.cause;
        effect = value.effect;
        contributions = contributions;
        supporting_citations = supporting;
        contradicting_citations = contradicting;
      }
      ∷ rest)

unfoldable pub project_causal :
    TemporalSelection → List causal.CausalLink → ProjectionIndex → Result CausalChainResult
project_causal selection values index = do
  links ← project_links values index
  ok (record { selection = selection; links = links })
