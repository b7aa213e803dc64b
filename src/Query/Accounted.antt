-- ===== src/Query/Accounted.antt =====
-- Which entities a result reports as without evidence (internal/query/projection.go).
use stacks.Query.Material.{has_material, member-add_summaries}
use stacks.Query.Naming.{
  any-add, blank_apart, withheld, excluded, named-add_coverage_gaps, named-add_summaries,
}
use stacks.Base.{
  ◌≡◌, refl, ◌∙◌, Bool, true, false, not, ◌&&◌, ◌||◌, List, [], ◌∷◌, Option, Text, bytes, is_empty,
  same, same_refl, same→eq, text_order, pair_order, member, add, member-add, any, sort_on, ok,
  >>=-eq-ok, if◌then◌else◌, arith, Bool-cases, inl, inr, list_cmp, nat_order,
}
use stacks.Base.Anys.{any-sort_on}
use stacks.Temporal.Terms.{StateCandidate}
use stacks.Temporal.Plans.{TemporalSelection}
use stacks.Temporal.Aggregation.{Summary}
use stacks.Query.Snapshots.{Coverage, ReadSnapshot}
use stacks.Query.Gaps.{definitely_outside_selection}
use stacks.Observation.Claims.{status_rejected}
use stacks.Query.Indexing.{validate_coverage_reasons}
use stacks.Query.StateGaps.{
  Gap, gap_no_evidence, gap_valid_time_excluded, gap_unresolved_mention, gap_authority_excluded,
  add_coverage_gaps, add_entity_gaps, add_candidate_gaps, add_valid_time_gaps, add_summaries,
  add_gap_entities, add_no_evidence, state_gap_material, project_state_gaps, state_entity_ids,
}

-- A gap of an entity without evidence.
abbrev pub lacks_evidence : Gap → Bool
lacks_evidence gap = same (gap.1).0 gap_no_evidence

other_kinds :
    (same gap_valid_time_excluded gap_no_evidence ≡ false)
    × (same gap_unresolved_mention gap_no_evidence ≡ false)
    × (same gap_authority_excluded gap_no_evidence ≡ false)
unfolding bytes list_cmp
other_kinds = (refl, refl, refl)

any-nil : any lacks_evidence [] ≡ false
unfolding any
any-nil = refl

coverage_others :
    (coverage : List Coverage) (selection : Option TemporalSelection) (gaps : List Gap)
    → any lacks_evidence gaps ≡ false
    → any lacks_evidence (add_coverage_gaps coverage selection gaps) ≡ false
unfolding add_coverage_gaps
coverage_others [] selection gaps h = h
coverage_others (c ∷ rest) selection gaps h =
    let mention =
      any-add lacks_evidence (c.entity_id, (gap_unresolved_mention, ([], c.predicate))) gaps in
    let authority =
      any-add lacks_evidence (c.entity_id, (gap_authority_excluded, ([], c.predicate))) gaps in
    coverage_others rest selection _
      (ground (arith, mention, authority, other_kinds.1, other_kinds.2))

entity_others :
    (requested ids : List Text) (label predicate : Text) (s : List Gap × Bool)
    → any lacks_evidence s.0 ≡ false
    → any lacks_evidence (add_entity_gaps requested ids label predicate s).0 ≡ false
unfolding add_entity_gaps
entity_others requested [] label predicate s h = h
entity_others requested (id ∷ ids) label predicate (gaps, added) h =
    let added_gap =
      any-add lacks_evidence (id, (gap_valid_time_excluded, (label, predicate))) gaps in
    elim (Bool-cases (member id requested)) [
      | inl e ↦
          rw (e, add_entity_gaps)
            (entity_others requested ids label predicate
              (add (id, (gap_valid_time_excluded, (label, predicate))) gaps, true)
              (ground (arith, added_gap, other_kinds.0)))
      | inr e ↦
          rw (e, add_entity_gaps) (entity_others requested ids label predicate (gaps, added) h)
    ]

unnamed_others :
    (s : List Gap × Bool) (label predicate : Text)
    → any lacks_evidence s.0 ≡ false
    → any lacks_evidence
        (if s.1 then s.0 else add ([], (gap_valid_time_excluded, (label, predicate))) s.0)
      ≡ false
unnamed_others (gaps, true) label predicate h = h
unnamed_others (gaps, false) label predicate h =
    any-add lacks_evidence ([], (gap_valid_time_excluded, (label, predicate))) gaps
    ∙ ground (arith, other_kinds.0)

candidate_others :
    (requested : List Text) (selection : TemporalSelection) (candidate : StateCandidate)
    (gaps : List Gap)
    → any lacks_evidence gaps ≡ false
    → any lacks_evidence (add_candidate_gaps requested selection candidate gaps) ≡ false
unfolding add_candidate_gaps
candidate_others requested selection c gaps h =
    let s =
      add_entity_gaps requested (state_entity_ids c.key c.value) selection.label c.key.predicate
        (gaps, false) in
    elim (Bool-cases (
      same c.observation.status status_rejected
      || not (definitely_outside_selection c.observation.valid_time selection))) [
        | inl e ↦ rw e h
        | inr e ↦ rw e (
            unnamed_others s selection.label c.key.predicate (
              entity_others requested (state_entity_ids c.key c.value) selection.label
                c.key.predicate (gaps, false) h))
      ]

valid_time_others :
    (requested : List Text) (candidates : List StateCandidate) (selection : TemporalSelection)
    (gaps : List Gap)
    → any lacks_evidence gaps ≡ false
    → any lacks_evidence (add_valid_time_gaps requested candidates selection gaps) ≡ false
unfolding add_valid_time_gaps
valid_time_others requested [] selection gaps h = h
valid_time_others requested (c ∷ candidates) selection gaps h =
    valid_time_others requested candidates selection _
      (candidate_others requested selection c gaps h)

summary_others :
    (requested : List Text) (candidates : List StateCandidate) (summaries : List Summary)
    (gaps : List Gap) (material : List Text)
    → any lacks_evidence gaps ≡ false
    → any lacks_evidence (add_summaries requested candidates summaries (gaps, material)).0 ≡ false
unfolding add_summaries
summary_others requested candidates [] gaps material h = h
summary_others requested candidates (s ∷ summaries) gaps material h =
    summary_others requested candidates summaries _ _
      (valid_time_others requested candidates s.selection gaps h)

member-add_gap_entities :
    (gaps : List Gap) (material : List Text) (id : Text)
    → is_empty id ≡ false
    → member id (add_gap_entities gaps material)
      ≡ (any (λ g. same g.0 id) gaps || member id material)
unfolding add_gap_entities any
member-add_gap_entities [] material id h = refl
member-add_gap_entities (g ∷ gaps) material id h = elim (Bool-cases (is_empty g.0)) [
  | inl e ↦
      let apart : same g.0 id ≡ false = blank_apart g.0 id e h in
      rw (e, apart) (member-add_gap_entities gaps material id h)
  | inr e ↦ rw e (
      member-add_gap_entities gaps (add g.0 material) id h
      ∙ ground (arith, member-add id g.0 material))
]

any-add_no_evidence :
    (p : Gap → Bool) (ids material : List Text) (gaps : List Gap)
    → any p (add_no_evidence ids material gaps)
      ≡ (any p gaps || any (λ j. not (member j material) && p (j, (gap_no_evidence, ([], [])))) ids)
unfolding add_no_evidence any
any-add_no_evidence p [] material gaps = ground arith
any-add_no_evidence p (id ∷ ids) material gaps = elim (Bool-cases (member id material)) [
  | inl e ↦ rw e (any-add_no_evidence p ids material gaps)
  | inr e ↦ rw e (
      any-add_no_evidence p ids material (add (id, (gap_no_evidence, ([], []))) gaps)
      ∙ ground (arith, any-add p (id, (gap_no_evidence, ([], []))) gaps))
]

any-lacking :
    (id : Text) (ids material : List Text)
    → any (λ j. not (member j material) && (same j id && same gap_no_evidence gap_no_evidence)) ids
      ≡ (member id ids && not (member id material))
unfolding any member
any-lacking id [] material = refl
any-lacking id (j ∷ ids) material = elim (Bool-cases (same j id)) [
  | inl e ↦
      let this : j ≡ id = same→eq j id e in
      rw this (ground (arith, any-lacking id ids material, same_refl id, same_refl gap_no_evidence))
  | inr e ↦ rw e (ground (arith, any-lacking id ids material))
]

any-lacks :
    (id : Text) (gaps : List Gap)
    → any lacks_evidence gaps ≡ false
    → any (λ g. same g.0 id && lacks_evidence g) gaps ≡ false
unfolding any
any-lacks id [] h = refl
any-lacks id (g ∷ gaps) h = ground (arith, any-lacks id gaps)

empty_list : (id : Text) → (any (λ (g : Gap). same g.0 id) [] ≡ false) × (member id [] ≡ false)
unfolding any member
empty_list id = (refl, refl)

-- A result reports a gap without evidence for an entity with a non-empty identifier exactly where
-- the request names the entity, no summary has a fact or an unresolved candidate whose subject or
-- value is the entity, no coverage within the selection withholds an observation on it for an
-- unresolved mention or by authority, and no candidate on it that is not rejected is neither
-- eligible nor uncertain in the selection of a summary.
pub project_state_gaps-lacks :
    (requested : List Text) (snapshot : ReadSnapshot) (candidates : List StateCandidate)
    (summaries : List Summary) (selection : Option TemporalSelection) (gaps : List Gap) (id : Text)
    → project_state_gaps requested snapshot candidates summaries selection ≡ ok gaps
    → is_empty id ≡ false
    → any (λ g. same g.0 id && lacks_evidence g) gaps ≡ (
        member id requested
        && not (
            any (has_material id) summaries
            || any (withheld id selection) snapshot.coverage
            || any (λ s. any (excluded id s.selection) candidates) summaries))
unfolding project_state_gaps state_gap_material
project_state_gaps-lacks requested snapshot candidates summaries selection gaps id h k =
    let (u, valid, done) = >>=-eq-ok (validate_coverage_reasons snapshot.coverage) _ h in
    let covered = add_coverage_gaps snapshot.coverage selection [] in
    let s = add_summaries requested candidates summaries (covered, []) in
    let found = add_gap_entities s.0 s.1 in
    let all_gaps = add_no_evidence requested found s.0 in
    let this : sort_on (λ gap. gap) all_gaps ≡ gaps = cc in
    let others : any lacks_evidence s.0 ≡ false =
      summary_others requested candidates summaries covered []
        (coverage_others snapshot.coverage selection [] any-nil) in
    let lacking =
      any-sort_on (λ gap. gap) (λ g. same g.0 id && lacks_evidence g) all_gaps
      ∙ any-add_no_evidence (λ g. same g.0 id && lacks_evidence g) requested found s.0 in
    rw (← this) (
      ground (
        arith,
        lacking,
        any-lacking id requested found,
        any-lacks id s.0 others,
        member-add_gap_entities s.0 s.1 id k,
        member-add_summaries id requested candidates summaries covered [],
        named-add_summaries id k requested candidates summaries covered [],
        named-add_coverage_gaps id snapshot.coverage selection [],
        empty_list id,
      ))
