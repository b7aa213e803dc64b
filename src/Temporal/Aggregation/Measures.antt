-- ===== src/Temporal/Aggregation/Measures.antt =====
-- The three sets of an accumulator as measures: the observations, and the evidence that supports
-- and that contradicts.
use stacks.Base.{
  ◌≡◌, refl, Bool, true, false, ◌&&◌, ◌||◌, List, [], ◌∷◌, Text, bytes, same, same→eq, text_order,
  list_cmp, member, member-add, any, arith,
}
use stacks.Observation.Digests.{EvidenceLink}
use stacks.Observation.Claims.{Observation, evidence_supporting, evidence_contradicting}
use stacks.Observation.Terms.{Term}
use stacks.Temporal.Terms.{StateKey}
use stacks.Temporal.Aggregation.Accumulators.{
  FactAccumulator, new_fact_accumulator, absorb_link, absorb_links, absorb,
}
use stacks.Temporal.Aggregation.Provenance.{Measure}

-- The observation cites the evidence in this role.
unfoldable pub cites : Text → Observation → Text → Bool
cites role value e = any (λ link. same link.role role && same link.evidence_id e) value.evidence

roles_differ :
    (role : Text) → same role evidence_contradicting ≡ true → same role evidence_supporting ≡ false
unfolding bytes list_cmp
roles_differ role h = rw (same→eq role evidence_contradicting h)

observations-absorb_links :
    (links : List EvidenceLink) (acc : FactAccumulator)
    → (absorb_links links acc).observations ≡ acc.observations
unfolding absorb_links absorb_link
observations-absorb_links [] acc = refl
observations-absorb_links (link ∷ links) acc =
    ground (arith, observations-absorb_links links (absorb_link link acc))

supporting-absorb_links :
    (e : Text) (links : List EvidenceLink) (acc : FactAccumulator)
    → member e (absorb_links links acc).supporting ≡ (
        any (λ link. same link.role evidence_supporting && same link.evidence_id e) links
        || member e acc.supporting)
unfolding absorb_links absorb_link any
supporting-absorb_links e [] acc = refl
supporting-absorb_links e (link ∷ links) acc = ground (
  arith,
  supporting-absorb_links e links (absorb_link link acc),
  member-add e link.evidence_id acc.supporting,
)

contradicting-absorb_links :
    (e : Text) (links : List EvidenceLink) (acc : FactAccumulator)
    → member e (absorb_links links acc).contradicting ≡ (
        any (λ link. same link.role evidence_contradicting && same link.evidence_id e) links
        || member e acc.contradicting)
unfolding absorb_links absorb_link any
contradicting-absorb_links e [] acc = refl
contradicting-absorb_links e (link ∷ links) acc = ground (
  arith,
  contradicting-absorb_links e links (absorb_link link acc),
  member-add e link.evidence_id acc.contradicting,
  roles_differ link.role,
)

pub observations-absorb :
    (e : Text) (value : Observation) (acc : FactAccumulator)
    → member e (absorb value acc).observations ≡ (same value.id e || member e acc.observations)
unfolding absorb
observations-absorb e value acc =
    rw observations-absorb_links (member-add e value.id acc.observations)

pub supporting-absorb :
    (e : Text) (value : Observation) (acc : FactAccumulator)
    → member e (absorb value acc).supporting
      ≡ (cites evidence_supporting value e || member e acc.supporting)
unfolding absorb cites
supporting-absorb e value acc = supporting-absorb_links e value.evidence _

pub contradicting-absorb :
    (e : Text) (value : Observation) (acc : FactAccumulator)
    → member e (absorb value acc).contradicting
      ≡ (cites evidence_contradicting value e || member e acc.contradicting)
unfolding absorb cites
contradicting-absorb e value acc = contradicting-absorb_links e value.evidence _

pub new_fact_accumulator_empty :
    (key : StateKey) (value : Term)
    → ((new_fact_accumulator key value).observations ≡ [])
      × ((new_fact_accumulator key value).supporting ≡ [])
      × ((new_fact_accumulator key value).contradicting ≡ [])
unfolding new_fact_accumulator
new_fact_accumulator_empty key value = (refl, refl, refl)

abbrev pub observations_measure : Measure
observations_measure = record {
  field = λ acc. acc.observations;
  adds = λ value e. same value.id e;
  starts = λ key value. (new_fact_accumulator_empty key value).0;
  absorbs = observations-absorb;
}

abbrev pub supporting_measure : Measure
supporting_measure = record {
  field = λ acc. acc.supporting;
  adds = cites evidence_supporting;
  starts = λ key value. (new_fact_accumulator_empty key value).1;
  absorbs = supporting-absorb;
}

abbrev pub contradicting_measure : Measure
contradicting_measure = record {
  field = λ acc. acc.contradicting;
  adds = cites evidence_contradicting;
  starts = λ key value. (new_fact_accumulator_empty key value).2;
  absorbs = contradicting-absorb;
}
