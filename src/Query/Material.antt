-- ===== src/Query/Material.antt =====
-- The entities on which the summaries of a result have material (internal/query/projection.go).
use stacks.Base.{
  add_all, ◌≡◌, refl, ◌∙◌, Bool, false, ◌||◌, List, [], ◌∷◌, Text, same, text_order, pair_order,
  member, member-add, member-add_all, any, arith, nat_order,
}
use stacks.Base.Entries.{member-sort_on_self}
use stacks.Observation.Terms.{Term, absent, text_term, mention_term, entity_term}
use stacks.Temporal.Terms.{StateCandidate, StateKey, Fact}
use stacks.Temporal.Aggregation.{Summary, UnresolvedFact}
use stacks.Query.StateGaps.{
  Gap, add_entity, state_entity_ids, add_fact_material, add_unresolved_material,
  add_state_summary_material, add_summaries, add_valid_time_gaps,
}

abbrev pub refers_to : Text → Term → Bool
refers_to id (entity_term entity grounding) = same entity id
refers_to id term = false

-- The entity is the subject of the key, or the value.
abbrev pub concerns : Text → StateKey → Term → Bool
concerns id key value = refers_to id key.subject || refers_to id value

-- The summary has a fact that concerns the entity, or an unresolved key with such a candidate.
abbrev pub has_material : Text → Summary → Bool
has_material id summary =
    any (λ f. concerns id f.key f.value) summary.facts
    || any (λ u. any (λ f. concerns id f.key f.value) u.candidates) summary.unresolved

member-add_entity :
    (id : Text) (term : Term) (ids : List Text)
    → member id (add_entity term ids) ≡ (refers_to id term || member id ids)
member-add_entity id absent ids = refl
member-add_entity id (text_term text) ids = refl
member-add_entity id (mention_term mention) ids = refl
member-add_entity id (entity_term entity grounding) ids = member-add id entity ids

pub member-state_entity_ids :
    (id : Text) (key : StateKey) (value : Term)
    → member id (state_entity_ids key value) ≡ concerns id key value
unfolding state_entity_ids member
member-state_entity_ids id key value =
    member-sort_on_self (λ (x : Text). x) id (add_entity value (add_entity key.subject []))
    ∙ ground (
      arith,
      member-add_entity id value (add_entity key.subject []),
      member-add_entity id key.subject [],
    )

member-add_fact_material :
    (id : Text) (facts : List Fact) (material : List Text)
    → member id (add_fact_material facts material)
      ≡ (any (λ f. concerns id f.key f.value) facts || member id material)
unfolding add_fact_material any
member-add_fact_material id [] material = refl
member-add_fact_material id (f ∷ facts) material = ground (
  arith,
  member-add_fact_material id facts (add_all (state_entity_ids f.key f.value) material),
  member-add_all id (state_entity_ids f.key f.value) material,
  member-state_entity_ids id f.key f.value,
)

member-add_unresolved_material :
    (id : Text) (items : List UnresolvedFact) (material : List Text)
    → member id (add_unresolved_material items material)
      ≡ (any (λ u. any (λ f. concerns id f.key f.value) u.candidates) items || member id material)
unfolding add_unresolved_material any
member-add_unresolved_material id [] material = refl
member-add_unresolved_material id (u ∷ items) material = ground (
  arith,
  member-add_unresolved_material id items (add_fact_material u.candidates material),
  member-add_fact_material id u.candidates material,
)

member-add_state_summary_material :
    (id : Text) (summary : Summary) (material : List Text)
    → member id (add_state_summary_material summary material)
      ≡ (has_material id summary || member id material)
unfolding add_state_summary_material
member-add_state_summary_material id summary material =
    member-add_unresolved_material id summary.unresolved (add_fact_material summary.facts material)
    ∙ ground (arith, member-add_fact_material id summary.facts material)

pub member-add_summaries :
    (id : Text) (requested : List Text) (candidates : List StateCandidate)
    (summaries : List Summary) (gaps : List Gap) (material : List Text)
    → member id (add_summaries requested candidates summaries (gaps, material)).1
      ≡ (any (has_material id) summaries || member id material)
unfolding add_summaries any
member-add_summaries id requested candidates [] gaps material = refl
member-add_summaries id requested candidates (s ∷ summaries) gaps material =
    member-add_summaries id requested candidates summaries
      (add_valid_time_gaps requested candidates s.selection gaps)
      (add_state_summary_material s material)
    ∙ ground (arith, member-add_state_summary_material id s material)
