-- ===== src/Query/Naming.antt =====
-- The entities that the coverage and the valid time of a selection bring into a gap
-- (internal/query/projection.go).
use stacks.Base.{
  ◌≡◌, refl, ◌∙◌, Bool, true, false, not, ◌&&◌, ◌||◌, List, [], ◌∷◌, Option, some, none, Text,
  is_empty, same, same_refl, same→eq, text_order, pair_order, member, add, any, any-append,
  if◌then◌else◌, arith, Bool-cases, inl, inr, list_cmp, nat_order,
}
use stacks.Observation.Extents.{TemporalExtent}
use stacks.Observation.Claims.{status_rejected}
use stacks.Temporal.Terms.{StateCandidate}
use stacks.Temporal.Plans.{TemporalSelection}
use stacks.Temporal.Aggregation.{Summary}
use stacks.Query.Snapshots.{Coverage, coverage_unresolved_mention, coverage_authority_excluded}
use stacks.Query.Gaps.{eligibility, definitely_outside_selection, definitely_outside_selection_lem}
use stacks.Query.StateGaps.{
  Gap, gap_valid_time_excluded, gap_unresolved_mention, gap_authority_excluded, outside_coverage,
  add_coverage_gaps, add_entity_gaps, add_candidate_gaps, add_valid_time_gaps, add_summaries,
  add_state_summary_material, state_entity_ids,
}
use stacks.Query.Material.{concerns, member-state_entity_ids}

-- An extent may hold in a selection where core/temporal finds it eligible or uncertain.
abbrev pub may_hold : TemporalExtent → TemporalSelection → Bool
may_hold extent selection = (eligibility extent selection).0 || (eligibility extent selection).1

abbrev pub may_hold_in : TemporalExtent → Option TemporalSelection → Bool
may_hold_in extent none = true
may_hold_in extent (some selection) = may_hold extent selection

-- The coverage withholds an observation on the entity, which may hold in the selection, for an
-- unresolved mention or by authority.
abbrev pub withheld : Text → Option TemporalSelection → Coverage → Bool
withheld id selection coverage =
    (same coverage.reason coverage_unresolved_mention
      || same coverage.reason coverage_authority_excluded)
    && (may_hold_in coverage.valid_time selection && same coverage.entity_id id)

-- A candidate on the entity, which is not rejected, cannot hold in the selection.
abbrev pub excluded : Text → TemporalSelection → StateCandidate → Bool
excluded id selection c =
    not (same c.observation.status status_rejected)
    && (not (may_hold c.observation.valid_time selection) && concerns id c.key c.value)

any-present :
    (p : Gap → Bool) (g : Gap) (gs : List Gap) → member g gs ≡ true → p g ≡ true → any p gs ≡ true
unfolding any member
any-present p g [] h k = cc
any-present p g (x ∷ gs) h k = elim (Bool-cases (same x g)) [
  | inl e ↦ let this : x ≡ g = same→eq x g e in rw this (rw k refl)
  | inr e ↦ let there = any-present p g gs (rw e at (h)) k in ground arith
]

pub any-add : (p : Gap → Bool) (g : Gap) (gs : List Gap) → any p (add g gs) ≡ (p g || any p gs)
unfolding add any
any-add p g gs = elim (Bool-cases (member g gs)) [
  | inl e ↦ rw e (ground (arith, any-present p g gs e))
  | inr e ↦ rw e (ground (arith, any-append p gs (g ∷ [])))
]

pub blank_apart : (t id : Text) → is_empty t ≡ true → is_empty id ≡ false → same t id ≡ false
unfolding list_cmp
blank_apart [] [] h k = cc
blank_apart [] (b ∷ id) h k = refl
blank_apart (b ∷ t) id h k = cc

outside_coverage_lem :
    (coverage : Coverage) (selection : Option TemporalSelection)
    → outside_coverage coverage selection ≡ not (may_hold_in coverage.valid_time selection)
outside_coverage_lem coverage none = refl
outside_coverage_lem coverage (some selection) =
    definitely_outside_selection_lem coverage.valid_time selection

pub named-add_coverage_gaps :
    (id : Text) (coverage : List Coverage) (selection : Option TemporalSelection) (gaps : List Gap)
    → any (λ g. same g.0 id) (add_coverage_gaps coverage selection gaps)
      ≡ (any (withheld id selection) coverage || any (λ g. same g.0 id) gaps)
unfolding add_coverage_gaps any
named-add_coverage_gaps id [] selection gaps = refl
named-add_coverage_gaps id (c ∷ rest) selection gaps =
    named-add_coverage_gaps id rest selection _
    ∙ ground (
      arith,
      outside_coverage_lem c selection,
      any-add (λ g. same g.0 id) (c.entity_id, (gap_unresolved_mention, ([], c.predicate))) gaps,
      any-add (λ g. same g.0 id) (c.entity_id, (gap_authority_excluded, ([], c.predicate))) gaps,
    )

named-add_entity_gaps :
    (id : Text) (requested ids : List Text) (label predicate : Text) (s : List Gap × Bool)
    → any (λ g. same g.0 id) (add_entity_gaps requested ids label predicate s).0
      ≡ ((member id ids && member id requested) || any (λ g. same g.0 id) s.0)
unfolding add_entity_gaps member
named-add_entity_gaps id requested [] label predicate s = refl
named-add_entity_gaps id requested (j ∷ ids) label predicate (gaps, added) =
    elim (Bool-cases (same j id)) [
      | inl e ↦
          let this : j ≡ id = same→eq j id e in
          rw this (
            named-add_entity_gaps id requested ids label predicate _
            ∙ ground (
              arith,
              same_refl id,
              any-add (λ g. same g.0 id) (id, (gap_valid_time_excluded, (label, predicate))) gaps,
            ))
      | inr e ↦
          named-add_entity_gaps id requested ids label predicate _
          ∙ ground (
            arith,
            e,
            any-add (λ g. same g.0 id) (j, (gap_valid_time_excluded, (label, predicate))) gaps,
          )
    ]

named_unlabelled :
    (id : Text) (s : List Gap × Bool) (label predicate : Text)
    → is_empty id ≡ false
    → any
        (λ g. same g.0 id)
        (if s.1 then s.0 else add ([], (gap_valid_time_excluded, (label, predicate))) s.0)
      ≡ any (λ g. same g.0 id) s.0
named_unlabelled id (gaps, true) label predicate h = refl
named_unlabelled id (gaps, false) label predicate h =
    any-add (λ g. same g.0 id) ([], (gap_valid_time_excluded, (label, predicate))) gaps
    ∙ ground (arith, blank_apart [] id refl h)

module _ (id : Text) (named : is_empty id ≡ false) (requested : List Text) where
  named-add_candidate_gaps :
      (selection : TemporalSelection) (c : StateCandidate) (gaps : List Gap)
      → any (λ g. same g.0 id) (add_candidate_gaps requested selection c gaps)
        ≡ ((excluded id selection c && member id requested) || any (λ g. same g.0 id) gaps)
  unfolding add_candidate_gaps
  named-add_candidate_gaps selection c gaps =
      let outside = definitely_outside_selection_lem c.observation.valid_time selection in
      let s =
        add_entity_gaps requested (state_entity_ids c.key c.value) selection.label c.key.predicate
          (gaps, false) in
      elim (Bool-cases (
        same c.observation.status status_rejected
        || not (definitely_outside_selection c.observation.valid_time selection))) [
          | inl e ↦ rw e (ground (arith, e, outside))
          | inr e ↦ rw e (
              named_unlabelled id s selection.label c.key.predicate named
              ∙ named-add_entity_gaps id requested (state_entity_ids c.key c.value) selection.label
                  c.key.predicate (gaps, false)
              ∙ ground (arith, e, outside, member-state_entity_ids id c.key c.value))
        ]

  named-add_valid_time_gaps :
      (candidates : List StateCandidate) (selection : TemporalSelection) (gaps : List Gap)
      → any (λ g. same g.0 id) (add_valid_time_gaps requested candidates selection gaps) ≡ (
          (any (excluded id selection) candidates && member id requested)
          || any (λ g. same g.0 id) gaps)
  unfolding add_valid_time_gaps any
  named-add_valid_time_gaps [] selection gaps = refl
  named-add_valid_time_gaps (c ∷ candidates) selection gaps =
      named-add_valid_time_gaps candidates selection (add_candidate_gaps requested selection c gaps)
      ∙ ground (arith, named-add_candidate_gaps selection c gaps)

  pub named-add_summaries :
      (candidates : List StateCandidate) (summaries : List Summary) (gaps : List Gap)
      (material : List Text)
      → any (λ g. same g.0 id) (add_summaries requested candidates summaries (gaps, material)).0 ≡ (
          (any (λ s. any (excluded id s.selection) candidates) summaries && member id requested)
          || any (λ g. same g.0 id) gaps)
  unfolding add_summaries any
  named-add_summaries candidates [] gaps material = refl
  named-add_summaries candidates (s ∷ summaries) gaps material =
      named-add_summaries candidates summaries
        (add_valid_time_gaps requested candidates s.selection gaps)
        (add_state_summary_material s material)
      ∙ ground (arith, named-add_valid_time_gaps candidates s.selection gaps)
