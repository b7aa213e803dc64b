-- ===== src/Temporal/Comparison/Maps.antt =====
-- The maps that `validateSummary` makes of a summary (core/temporal/comparison.go).
use stacks.Base.{
  ◌≡◌, refl, sym, ap, ◌∙◌, inl, inr, false, ◌&&◌, ◌||◌, Option, none, some, List, [], ◌∷◌, same,
  same→eq, nat_order, text_order, pair_order, find, store, find-store, is_some, any, All, ok,
  >>=-eq-ok, refuse->>-eq-ok, arith, if◌then◌else◌, Bool-cases,
}
use stacks.Base.Entries.{All-store}
use stacks.Temporal.Terms.{
  validate_state_key, validate_canonical_term, Fact, TermIdentity, StateKeyIdentity,
  identity_for_term, identity_for_state_key,
}
use stacks.Temporal.Aggregation.{UnresolvedFact}
use mathlib.Core.Path.{subst}
use stacks.Temporal.Comparison.Checks.{
  no_ids, normalize_ids, validate_fact, Facts, Unresolved, collect_facts, check_unresolved,
  collect_alternatives, collect_unresolved,
}
use stacks.Temporal.Aggregation.GroupKeys.{unresolved_at}

-- The value that a list of facts has for a key.
abbrev pub value_at : StateKeyIdentity → List Fact → Option TermIdentity
value_at j [] = none
value_at j (f ∷ fs) =
    let rest = value_at j fs in
    if same (identity_for_state_key f.key) j then some (identity_for_term f.value) else rest

abbrev pub valued : Option Fact → Option TermIdentity
valued none = none
valued (some f) = some (identity_for_term f.value)

abbrev pub first_of : Option TermIdentity → Option TermIdentity → Option TermIdentity
first_of none v = v
first_of (some u) v = some u

pub validate_fact_keeps :
    (f : Fact) {g : Fact} → validate_fact f ≡ ok g → (g.key ≡ f.key) × (g.value ≡ f.value)
unfolding validate_fact
validate_fact_keeps f {g} h =
    let (_, _, h1) = >>=-eq-ok (validate_state_key f.key) _ h in
    let (_, _, h2) = >>=-eq-ok (validate_canonical_term f.value) _ h1 in
    let (_, h3) = refuse->>-eq-ok (no_ids f.observation_ids) _ _ h2 in
    let (_, h4) =
      refuse->>-eq-ok (no_ids f.supporting_evidence_ids && no_ids f.contradicting_evidence_ids) _ _
        h3 in
    let (a, _, h5) = >>=-eq-ok (normalize_ids f.observation_ids) _ h4 in
    let (b, _, h6) = >>=-eq-ok (normalize_ids f.supporting_evidence_ids) _ h5 in
    let (c, _, h7) = >>=-eq-ok (normalize_ids f.contradicting_evidence_ids) _ h6 in
    let built : Path Fact
        (record f {
          observation_ids = a;
          supporting_evidence_ids = b;
          contradicting_evidence_ids = c;
        })
        g =
      cc in
    (ap (λ (x : Fact). x.key) (sym built), ap (λ (x : Fact). x.value) (sym built))

pub first_of_absent :
    (o : Option Fact) (v : Option TermIdentity) → is_some o ≡ false → first_of (valued o) v ≡ v
first_of_absent none v h = refl
first_of_absent (some f) v h = cc

abbrev pub KeyedFacts : Facts → Type 0
KeyedFacts m = All (λ e. identity_for_state_key (e.1).key ≡ e.0) m

-- The map of a summary's facts has the value of each key in the list.
pub collect_facts-eq-ok :
    (fs : List Fact) (m : Facts) {out : Facts}
    → collect_facts fs m ≡ ok out
    → KeyedFacts m
    → KeyedFacts out
      × ((j : StateKeyIdentity)
          → valued (find j out) ≡ first_of (valued (find j m)) (value_at j fs))
unfolding collect_facts
collect_facts-eq-ok [] m {out} h k =
    let e : m ≡ out = cc in
    (
      subst KeyedFacts e k,
      λ j. ap (λ (n : Facts). valued (find j n)) (sym e) ∙ (first_of-none (valued (find j m))),
    )
  where
    first_of-none : (v : Option TermIdentity) → v ≡ first_of v none
    first_of-none none = refl
    first_of-none (some v) = refl
collect_facts-eq-ok (f ∷ fs) m {out} h k =
    let (g, valid, h1) = >>=-eq-ok (validate_fact f) _ h in
    let (same_key, same_value) = validate_fact_keeps f valid in
    let (absent, h2) = refuse->>-eq-ok (is_some (find (identity_for_state_key g.key) m)) _ _ h1 in
    let (keyed, values) = collect_facts-eq-ok fs (store (identity_for_state_key g.key) g m) h2 (
      All-store (λ i f. identity_for_state_key f.key ≡ i) (identity_for_state_key g.key) g m refl
        k) in
    (keyed, λ j. values j ∙ stored j g same_key same_value absent)
  where
    stored :
        (j : StateKeyIdentity) (g : Fact)
        → g.key ≡ f.key
        → g.value ≡ f.value
        → is_some (find (identity_for_state_key g.key) m) ≡ false
        → first_of (valued (find j (store (identity_for_state_key g.key) g m))) (value_at j fs)
          ≡ first_of (valued (find j m)) (value_at j (f ∷ fs))
    stored j g p q a =
        let i = identity_for_state_key f.key in
        rw (find-store, p)
          (elim (Bool-cases (same i j)) [
            | inl e ↦
                let nothing : is_some (find j m) ≡ false =
                  ap (λ k. is_some (find k m)) (sym (same→eq i j e))
                  ∙ ap (λ k. is_some (find (identity_for_state_key k) m)) (sym p)
                  ∙ a in
                rw e (
                  ap (λ v. some (identity_for_term v)) q
                  ∙ sym (first_of_absent (find j m) _ nothing))
            | inr e ↦ rw e
          ])

abbrev pub KeyedUnresolved : Unresolved → Type 0
KeyedUnresolved m = All (λ e. identity_for_state_key (e.1).key ≡ e.0) m

-- The map of the unresolved facts has the keys of the list.
pub collect_unresolved-eq-ok :
    (items : List UnresolvedFact) (facts : Facts) (m : Unresolved) {out : Unresolved}
    → collect_unresolved items facts m ≡ ok out
    → KeyedUnresolved m
    → KeyedUnresolved out
      × ((j : StateKeyIdentity)
          → is_some (find j out) ≡ (is_some (find j m) || any (unresolved_at j) items))
unfolding collect_unresolved any
collect_unresolved-eq-ok [] facts m {out} h k =
    let e : m ≡ out = cc in
    (
      subst KeyedUnresolved e k,
      λ j. ap (λ (n : Unresolved). is_some (find j n)) (sym e) ∙ ground arith,
    )
collect_unresolved-eq-ok (item ∷ items) facts m {out} h k =
    let (_, _, h1) = >>=-eq-ok (check_unresolved item facts m) _ h in
    let (alternatives, _, h2) = >>=-eq-ok (collect_alternatives item.key item.candidates []) _ h1 in
    let i = identity_for_state_key item.key in
    let (keyed, found_keys) =
      collect_unresolved-eq-ok items facts _ h2
        (All-store (λ i (u : UnresolvedFact). identity_for_state_key u.key ≡ i) i _ m refl k) in
    (keyed, λ j. found_keys j ∙ rw find-store (ground arith))
