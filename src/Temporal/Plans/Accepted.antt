-- ===== src/Temporal/Plans/Accepted.antt =====
-- What `NewPlan` accepts and returns (core/temporal/plan.go).
use stacks.Base.{
  ℕ, ◌≡◌, refl, sym, ap, ◌∙◌, Bool, true, false, not, ◌&&◌, ◌||◌, List, [], ◌∷◌, map, Text, same,
  text_order, member, add, all, is_empty, trim_space, ok, >>=-eq-ok, arith, length, ◌==◌,
  if◌then◌else◌, refuse->>-eq-ok,
}
use stacks.Base.Distinct.{all_new, all_new_agree, add_agrees}
use stacks.Temporal.Plans.{
  PlanInput, Plan, collect_unique, normalize_unique_strings, new_plan, TemporalSelection,
  check_selections, validate_selections, selection_point, selection_window, intent_trend_comparison,
  intent_point_in_time, second_starts_later, operations_for, intent_valid, scope_invalid,
}

abbrev pub nonempty : List Text → Bool
nonempty [] = false
nonempty (x ∷ xs) = true

-- What the loop asks of its inputs: none is blank, and no two of them trim to one text.
abbrev pub are_distinct : List Text → List Text → Bool
are_distinct inputs seen =
    all (λ input. not (is_empty (trim_space input))) inputs && all_new (map trim_space inputs) seen

step :
    (a b c d : Bool)
    → a ≡ false
    → c ≡ false
    → (b && d) ≡ true
    → ((not a && b) && (not c && d)) ≡ true
step a b c d p q r = ground arith

collect_unique-eq-ok :
    (inputs seen : List Text) {values : List Text}
    → collect_unique inputs seen ≡ ok values
    → (values ≡ map trim_space inputs) × (are_distinct inputs seen ≡ true)
unfolding collect_unique all
collect_unique-eq-ok [] seen h = (ground arith, refl)
collect_unique-eq-ok (input ∷ rest) seen {values} h =
    let (full, h1) = refuse->>-eq-ok (is_empty (trim_space input)) _ _ h in
    let (new, h2) = refuse->>-eq-ok (member (trim_space input) seen) _ _ h1 in
    let (vs, run, done) = >>=-eq-ok (collect_unique rest (add (trim_space input) seen)) _ h2 in
    let (trimmed, fits) = collect_unique-eq-ok rest (add (trim_space input) seen) run in
    let here : (trim_space input ∷ vs) ≡ values = cc in
    (
      sym here ∙ ap (λ l. trim_space input ∷ l) trimmed,
      step (is_empty (trim_space input)) _ (member (trim_space input) seen) _ full new (
          rw
            (← all_new_agree (map trim_space rest) (add (trim_space input) seen)
              (trim_space input ∷ seen) (add_agrees (trim_space input) seen))
            fits),
    )

collect_unique_accepts :
    (inputs seen : List Text)
    → are_distinct inputs seen ≡ true
    → collect_unique inputs seen ≡ ok (map trim_space inputs)
unfolding collect_unique all
collect_unique_accepts [] seen h = refl
collect_unique_accepts (input ∷ rest) seen h =
    let agree =
      all_new_agree (map trim_space rest) (add (trim_space input) seen) (trim_space input ∷ seen)
        (add_agrees (trim_space input) seen) in
    let (full, new, fits) =
      parts (is_empty (trim_space input)) _ (member (trim_space input) seen) _ h in
    rw (full, new, collect_unique_accepts rest (add (trim_space input) seen) (rw agree fits))
  where
    parts :
        (a b c d : Bool)
        → ((not a && b) && (not c && d)) ≡ true
        → (a ≡ false) × (c ≡ false) × ((b && d) ≡ true)
    parts a b c d h = (ground arith, ground arith, ground arith)

pub normalize_unique_strings-eq-ok :
    (inputs : List Text) {values : List Text}
    → normalize_unique_strings inputs ≡ ok values
    → (values ≡ map trim_space inputs) × ((nonempty inputs && are_distinct inputs []) ≡ true)
unfolding normalize_unique_strings
normalize_unique_strings-eq-ok [] h = cc
normalize_unique_strings-eq-ok (input ∷ rest) h = collect_unique-eq-ok (input ∷ rest) [] h

normalize_unique_strings_accepts :
    (inputs : List Text)
    → (nonempty inputs && are_distinct inputs []) ≡ true
    → normalize_unique_strings inputs ≡ ok (map trim_space inputs)
unfolding normalize_unique_strings
normalize_unique_strings_accepts [] h = cc
normalize_unique_strings_accepts (input ∷ rest) h = collect_unique_accepts (input ∷ rest) [] h

-- What the loop of `validateSelections` asks: one kind, and labels that differ.
abbrev pub are_labelled : ℕ → List TemporalSelection → List Text → Bool
are_labelled kind selections seen =
    all (λ (s : TemporalSelection). s.kind == kind) selections
    && all_new (map (λ (s : TemporalSelection). s.label) selections) seen

-- The loop passes exactly where the selections have the wanted kind and differ in their labels.
check_selections_accepts :
    (kind : ℕ) (selections : List TemporalSelection) (seen : List Text)
    → are_labelled kind selections seen ≡ true
    → check_selections kind selections seen ≡ ok tt
unfolding check_selections all
check_selections_accepts kind [] seen h = refl
check_selections_accepts kind (s ∷ rest) seen h =
    let agree =
      all_new_agree (map (λ (s : TemporalSelection). s.label) rest) (add s.label seen)
        (s.label ∷ seen) (add_agrees s.label seen) in
    let (fit, new, fits) = parts (s.kind == kind) _ (member s.label seen) _ h in
    rw (fit, new, check_selections_accepts kind rest (add s.label seen) (rw agree fits))
  where
    parts :
        (a b c d : Bool)
        → ((a && b) && (not c && d)) ≡ true
        → (a ≡ true) × (c ≡ false) × ((b && d) ≡ true)
    parts a b c d h = (ground arith, ground arith, ground arith)

check_selections-eq-ok :
    (kind : ℕ) (selections : List TemporalSelection) (seen : List Text) {u : Unit {0}}
    → check_selections kind selections seen ≡ ok u
    → are_labelled kind selections seen ≡ true
unfolding check_selections all
check_selections-eq-ok kind [] seen h = refl
check_selections-eq-ok kind (s ∷ rest) seen h =
    let (fit, h1) = refuse->>-eq-ok (not (s.kind == kind)) _ _ h in
    let (new, h2) = refuse->>-eq-ok (member s.label seen) _ _ h1 in
    joined (s.kind == kind) _ (member s.label seen) _ fit new (
      rw
        (← all_new_agree (map (λ (s : TemporalSelection). s.label) rest) (add s.label seen)
          (s.label ∷ seen) (add_agrees s.label seen))
        (check_selections-eq-ok kind rest (add s.label seen) h2))
  where
    joined :
        (a b c d : Bool)
        → not a ≡ false
        → c ≡ false
        → (b && d) ≡ true
        → ((a && b) && (not c && d)) ≡ true
    joined a b c d p q r = ground arith

-- The selections that a plan of this intent may have.
abbrev pub selections_fit : Text → List TemporalSelection → Bool
selections_fit intent selections =
    (length selections == (if same intent intent_trend_comparison then 2 else 1))
    && (not (same intent intent_trend_comparison) || second_starts_later selections)
    && are_labelled (if same intent intent_point_in_time then selection_point else selection_window)
        selections []

-- What a query asks of its input, said without the loops.
abbrev pub plan_fits : PlanInput → Bool
plan_fits input =
    (intent_valid input.intent && (nonempty input.entity_ids && are_distinct input.entity_ids []))
    && (selections_fit input.intent input.selections && not (scope_invalid input.knowledge_scope))

abbrev pub planned : PlanInput → Plan
planned input = record {
  intent = input.intent;
  entity_ids = map trim_space input.entity_ids;
  selections = input.selections;
  knowledge_scope = input.knowledge_scope;
  operations = operations_for input.intent;
}

validate_selections-eq-ok :
    (intent : Text) (selections : List TemporalSelection) {u : Unit {0}}
    → validate_selections intent selections ≡ ok u
    → selections_fit intent selections ≡ true
unfolding validate_selections
validate_selections-eq-ok intent selections h =
    let (count, h1) =
      refuse->>-eq-ok
        (not (length selections == (if same intent intent_trend_comparison then 2 else 1))) _ _ h in
    let (ordered, h2) =
      refuse->>-eq-ok (same intent intent_trend_comparison && not (second_starts_later selections))
        _ _ h1 in
    let labelled = check_selections-eq-ok _ selections [] h2 in
    joined (length selections == (if same intent intent_trend_comparison then 2 else 1))
      (same intent intent_trend_comparison) (second_starts_later selections) _ count ordered
      labelled
  where
    joined :
        (a b c d : Bool)
        → not a ≡ false
        → (b && not c) ≡ false
        → d ≡ true
        → (a && (not b || c) && d) ≡ true
    joined a b c d p q r = ground arith

validate_selections_accepts :
    (intent : Text) (selections : List TemporalSelection)
    → selections_fit intent selections ≡ true
    → validate_selections intent selections ≡ ok tt
unfolding validate_selections
validate_selections_accepts intent selections h =
    let (count, ordered, labelled) =
      parts (length selections == (if same intent intent_trend_comparison then 2 else 1))
        (same intent intent_trend_comparison) (second_starts_later selections) _ h in
    rw (count, ordered, check_selections_accepts _ selections [] labelled)
  where
    parts :
        (a b c d : Bool)
        → (a && (not b || c) && d) ≡ true
        → (a ≡ true) × ((b && not c) ≡ false) × (d ≡ true)
    parts a b c d h = (ground arith, ground arith, ground arith)

-- A plan that `NewPlan` returns has the input's intent, selections and knowledge scope, the
-- trimmed entity identifiers and the intent's operations, and its input was fit: the intent is
-- known, no identifier is blank or repeated, and the selections are as many, of the kind, as
-- labelled and as ordered as the intent asks.
pub new_plan-eq-ok :
    (input : PlanInput) (plan : Plan)
    → new_plan input ≡ ok plan
    → (plan ≡ planned input) × (plan_fits input ≡ true)
unfolding new_plan
new_plan-eq-ok input plan h =
    let (valid, h1) = refuse->>-eq-ok (not (intent_valid input.intent)) _ _ h in
    let (ids, run, h2) = >>=-eq-ok (normalize_unique_strings input.entity_ids) _ h1 in
    let (trimmed, distinct) = normalize_unique_strings-eq-ok input.entity_ids run in
    let (_, checked, h3) = >>=-eq-ok (validate_selections input.intent input.selections) _ h2 in
    let (scoped, done) = refuse->>-eq-ok (scope_invalid input.knowledge_scope) _ _ h3 in
    (
      (let built : Path Plan
              (record {
                intent = input.intent;
                entity_ids = ids;
                selections = input.selections;
                knowledge_scope = input.knowledge_scope;
                operations = operations_for input.intent;
              })
              plan =
            cc in
          sym built ∙ rw trimmed),
      joined (intent_valid input.intent) _ _ (scope_invalid input.knowledge_scope) valid distinct
          (validate_selections-eq-ok input.intent input.selections checked) scoped,
    )
  where
    joined :
        (a b c d : Bool)
        → not a ≡ false
        → b ≡ true
        → c ≡ true
        → d ≡ false
        → ((a && b) && (c && not d)) ≡ true
    joined a b c d p q r t = ground arith

-- `NewPlan` accepts every input that is fit.
pub new_plan_accepts :
    (input : PlanInput) → plan_fits input ≡ true → new_plan input ≡ ok (planned input)
unfolding new_plan
new_plan_accepts input h =
    let (valid, ids, selections, scoped) =
      parts (intent_valid input.intent) _ _ (scope_invalid input.knowledge_scope) h in
    rw (
      valid,
      normalize_unique_strings_accepts input.entity_ids ids,
      validate_selections_accepts input.intent input.selections selections,
      scoped,
    )
  where
    parts :
        (a b c d : Bool)
        → ((a && b) && (c && not d)) ≡ true
        → (a ≡ true) × (b ≡ true) × (c ≡ true) × (d ≡ false)
    parts a b c d h = (ground arith, ground arith, ground arith, ground arith)
