-- ===== src/Temporal/Aggregation/Provenance.antt =====
-- The groups of `aggregateCandidates` as sets: which identifiers the accumulator of a key, a value
-- and a class holds, and what admitting one candidate does to them.
use stacks.Base.{
  ◌≡◌, refl, ap, inl, inr, Bool, true, false, not, ◌&&◌, ◌||◌, Option, none, some, List, [], Text,
  same, same→eq, nat_order, text_order, pair_order, member, find, find-store, or_else, arith,
  Bool-cases, if◌then◌else◌,
}
use stacks.Observation.Claims.{Observation, status_hypothesized}
use stacks.Observation.Terms.{Term}
use stacks.Temporal.Terms.{
  StateKey, StateCandidate, TermIdentity, StateKeyIdentity, identity_for_term,
  identity_for_state_key,
}
use stacks.Temporal.Eligibility.{observation_has_supporting_evidence}
use stacks.Temporal.Aggregation.Accumulators.{
  FactAccumulator, Accumulators, KeyAccumulator, new_fact_accumulator, absorb, merge_candidate,
  new_key_accumulator, classify,
}
use stacks.Temporal.Aggregation.Collecting.{Groups, admit}

-- The three maps of a group.
pub data Class : Type 0 where
  supported tentative counter_only : Class

abbrev pub same_class : Class → Class → Bool
same_class supported supported = true
same_class tentative tentative = true
same_class counter_only counter_only = true
same_class _ _ = false

-- The class of a counted candidate: without supporting evidence it only counters, and a temporal
-- uncertainty or a hypothesis is tentative.
unfoldable pub class_of : Bool → Observation → Class
class_of uncertain value =
    if not (observation_has_supporting_evidence value)
    then counter_only
    else if uncertain || same value.status status_hypothesized
    then tentative
    else supported

abbrev pub class_map : Class → KeyAccumulator → Accumulators
class_map supported group = group.supported
class_map tentative group = group.tentative
class_map counter_only group = group.counter_only

abbrev pub entries : Class → Option KeyAccumulator → Accumulators
entries cl none = []
entries cl (some group) = class_map cl group

abbrev pub read : (FactAccumulator → List Text) → Option FactAccumulator → List Text
read field none = []
read field (some acc) = field acc

-- `classify` merges into the map of the candidate's class and into no other.
pub class_map-classify :
    (u : Bool) (c : StateCandidate) (group : KeyAccumulator) (cl : Class)
    → class_map cl (classify u c group) ≡ (
        if same_class (class_of u c.observation) cl
        then merge_candidate (class_map cl group) c.key c.value c.observation
        else class_map cl group)
unfolding classify class_of
class_map-classify u c group supported = ground arith
class_map-classify u c group _ = ground arith

entries-or_else :
    (cl : Class) (key : StateKey) (o : Option KeyAccumulator)
    → class_map cl (or_else o (new_key_accumulator key)) ≡ entries cl o
unfolding new_key_accumulator
entries-or_else supported key none = refl
entries-or_else tentative key none = refl
entries-or_else counter_only key none = refl
entries-or_else cl key (some group) = refl

-- A set of an accumulator, with what one observation adds to it.
pub record Measure : Type 0 where
  pub field : FactAccumulator → List Text
  pub adds : Observation → Text → Bool
  pub starts : (key : StateKey) (value : Term) → field (new_fact_accumulator key value) ≡ []
  pub absorbs :
      (e : Text) (o : Observation) (acc : FactAccumulator)
      → member e (field (absorb o acc)) ≡ (adds o e || member e (field acc))

module _ (m : Measure) where
  open m use {field, adds, starts, absorbs}

  -- The members of the set of a key, a class and a value.
  unfoldable pub held : Class → StateKeyIdentity → TermIdentity → Groups → Text → Bool
  held cl k v groups e = member e (read field (find v (entries cl (find k groups))))

  member-or_else :
      (e : Text) (key : StateKey) (value : Term) (o : Option FactAccumulator)
      → member e (field (or_else o (new_fact_accumulator key value))) ≡ member e (read field o)
  unfolding member
  member-or_else e key value none = rw starts
  member-or_else e key value (some acc) = refl

  member-merge_candidate :
      (e : Text) (v : TermIdentity) (target : Accumulators) (c : StateCandidate)
      → member e (read field (find v (merge_candidate target c.key c.value c.observation))) ≡ (
          (same (identity_for_term c.value) v && adds c.observation e)
          || member e (read field (find v target)))
  unfolding merge_candidate
  member-merge_candidate e v target c =
      let id = identity_for_term c.value in
      rw find-store (elim (Bool-cases (same id v)) [
        | inl h ↦ rw (
          h,
          absorbs,
          ap (λ i. find i target) (same→eq id v h),
          member-or_else e c.key c.value (find v target),
        )
        | inr h ↦ rw h
      ])

  member-classify :
      (u : Bool) (c : StateCandidate) (o : Option KeyAccumulator) (cl : Class) (v : TermIdentity)
      → (e : Text)
      → member e (
          read field (find v (class_map cl (classify u c (or_else o (new_key_accumulator c.key))))))
        ≡ ((same_class (class_of u c.observation) cl
              && same (identity_for_term c.value) v
              && adds c.observation e)
            || member e (read field (find v (entries cl o))))
  member-classify u c o cl v e =
      rw
        (
          class_map-classify u c (or_else o (new_key_accumulator c.key)) cl,
          entries-or_else cl c.key o,
        )
        (elim (Bool-cases (same_class (class_of u c.observation) cl)) [
          | inl h ↦ rw h (member-merge_candidate e v (entries cl o) c)
          | inr h ↦ rw h
        ])

  -- One counted candidate adds its own elements to the set of its key, class and value, and
  -- changes no other set.
  pub held-admit :
      (u : Bool) (c : StateCandidate) (groups : Groups)
      → (cl : Class) (k : StateKeyIdentity) (v : TermIdentity) (e : Text)
      → held cl k v (admit u c groups) e ≡ (
          (same (identity_for_state_key c.key) k
            && same_class (class_of u c.observation) cl
            && same (identity_for_term c.value) v
            && adds c.observation e)
          || held cl k v groups e)
  unfolding held admit
  held-admit u c groups cl k v e =
      let id = identity_for_state_key c.key in
      rw find-store (elim (Bool-cases (same id k)) [
        | inl h ↦
            rw (h, ap (λ i. find i groups) (same→eq id k h))
              (member-classify u c (find k groups) cl v e)
        | inr h ↦ rw h
      ])
