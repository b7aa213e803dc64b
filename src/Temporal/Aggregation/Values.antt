-- ===== src/Temporal/Aggregation/Values.antt =====
-- The value of a group, and what it says of the maps of the group's classes.
use stacks.Base.{
  ◌≡◌, refl, sym, ap, ◌∙◌, Bool, true, false, ◌&&◌, Option, none, some, List, [], ◌∷◌, Text, same,
  same_refl, same→eq, nat_order, text_order, pair_order, member, find, is_some, all, arith,
}
use stacks.Base.Entries.{is_some-find, member-sort_on}
use stacks.Observation.Claims.{Observation}
use stacks.Temporal.Terms.{
  StateCandidate, TermIdentity, StateKeyIdentity, identity_for_term, identity_for_state_key,
}
use stacks.Temporal.Plans.{KnowledgeScope}
use stacks.Temporal.Eligibility.{observation_has_supporting_evidence}
use stacks.Temporal.Aggregation.Accumulators.{FactAccumulator, Accumulators, KeyAccumulator}
use stacks.Temporal.Aggregation.Collecting.{ValidTimeSelector}
use stacks.Temporal.Aggregation.Summaries.{
  sorted_accumulator_values, accumulator_order, resolved_value, no_alternative_values, group_value,
}
use stacks.Temporal.Aggregation.Provenance.{
  Class, supported, tentative, counter_only, class_map, same_class, class_of, read,
}
use stacks.Temporal.Aggregation.Measures.{observations_measure}
use stacks.Temporal.Aggregation.Counting.{gives, class_in}

pub resolved_value-eq-some :
    (sup ten cnt : List TermIdentity) {v : TermIdentity}
    → resolved_value sup ten cnt ≡ some v
    → (sup ≡ v ∷ []) × (no_alternative_values v ten ≡ true) × (cnt ≡ [])
unfolding resolved_value
resolved_value-eq-some [] ten cnt h = cc
resolved_value-eq-some (x ∷ []) ten [] h = (ground arith, ground arith, refl)
resolved_value-eq-some (x ∷ []) ten (c ∷ cnt) h = cc
resolved_value-eq-some (x ∷ y ∷ sup) ten cnt h = cc

-- The values of a class are the keys of its map.
pub member-sorted_accumulator_values :
    (v : TermIdentity) (m : Accumulators)
    → member v (sorted_accumulator_values m) ≡ is_some (find v m)
unfolding sorted_accumulator_values
member-sorted_accumulator_values v m =
    member-sort_on accumulator_order (λ e. e.0) v m ∙ sym (is_some-find v m)

pub member-all :
    (v w : TermIdentity) (ten : List TermIdentity)
    → no_alternative_values v ten ≡ true
    → member w ten ≡ true
    → w ≡ v
unfolding no_alternative_values all member
member-all v w [] h k = cc
member-all v w (x ∷ ten) h k = ground (arith, same→eq x v, same→eq x w, member-all v w ten)

-- A group with a value has that value alone, and nothing that only counters.
pub group_value-eq-some :
    (g : KeyAccumulator) {v : TermIdentity} (cl : Class) (w : TermIdentity)
    → group_value g ≡ some v
    → is_some (find w (class_map cl g)) ≡ true
    → (same_class cl counter_only ≡ false) × (w ≡ v)
group_value-eq-some g {v} supported w h k =
    let (sup, ten, cnt) = resolved_value-eq-some (sorted_accumulator_values g.supported) _ _ h in
    let here : member w (v ∷ []) ≡ true =
      ap (member w) (sym sup) ∙ member-sorted_accumulator_values w g.supported ∙ k in
    (refl, unfold member in ground (arith, same→eq v w))
group_value-eq-some g {v} tentative w h k =
    let (sup, ten, cnt) = resolved_value-eq-some (sorted_accumulator_values g.supported) _ _ h in
    (refl, member-all v w _ ten (member-sorted_accumulator_values w g.tentative ∙ k))
group_value-eq-some g {v} counter_only w h k =
    let (sup, ten, cnt) = resolved_value-eq-some (sorted_accumulator_values g.supported) _ _ h in
    let here : member w [] ≡ true =
      ap (member w) (sym cnt) ∙ member-sorted_accumulator_values w g.counter_only ∙ k in
    unfold member in cc

pub same_class_refl : (cl : Class) → same_class cl cl ≡ true
same_class_refl supported = refl
same_class_refl tentative = refl
same_class_refl counter_only = refl

pub read_found :
    (e : Text) (o : Option FactAccumulator)
    → member e (read (λ acc. acc.observations) o) ≡ true
    → is_some o ≡ true
unfolding member
read_found e none h = cc
read_found e (some acc) h = refl

pub and_four :
    {a b c d : Bool} → a ≡ true → b ≡ true → c ≡ true → d ≡ true → (a && b && c && d) ≡ true
and_four p q r s = rw (p, q, r, s)

-- A candidate gives its own observation to its own key, class and value.
pub gives_itself :
    (scope : KnowledgeScope) (select : ValidTimeSelector) (c : StateCandidate)
    (k : StateKeyIdentity)
    → identity_for_state_key c.key ≡ k
    → gives scope select observations_measure
        (class_in scope select c)
        k
        (identity_for_term c.value)
        c.observation.id
        c
      ≡ true
gives_itself scope select c k e =
    and_four (ap (λ j. same j k) e ∙ same_refl k) (same_class_refl (class_in scope select c))
      (same_refl (identity_for_term c.value)) (same_refl c.observation.id)

pub class_of-supporting :
    (u : Bool) (value : Observation)
    → same_class (class_of u value) counter_only ≡ false
    → observation_has_supporting_evidence value ≡ true
unfolding class_of
class_of-supporting u value h = ground arith
