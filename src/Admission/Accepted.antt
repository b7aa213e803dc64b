-- ===== src/Admission/Accepted.antt =====
-- What `reasoncode.Validate` and `NewDecision` accept and return (core/internal/reasoncode,
-- core/admission/admission.go).
use stacks.Base.{
  ◌≡◌, refl, Bool, true, false, not, ◌&&◌, Text, same, ◌≤◌, ltb, length, text_order, is_empty,
  trim_space, ok, >>=-eq-ok, arith, refuse->>-eq-ok, wrap-eq-ok,
}
use stacks.Timepoint.{is_zero, normalize}
use stacks.Encodings.Utf8.{rune_count, length-rune_count}
use stacks.Admission.{
  DecisionInput, Decision, new_decision, validate_reason_code, target_kind_valid, outcome_valid,
  authority_valid, digest_decision, maximum_runes,
}

-- A reason code that is not blank, of at most the largest number of runes.
abbrev pub reason_code_fits : Text → Bool
reason_code_fits value =
    not (is_empty (trim_space value)) && not (ltb maximum_runes (rune_count value))

pub validate_reason_code-eq-ok :
    (value : Text) {result : Text}
    → validate_reason_code value ≡ ok result
    → (result ≡ value) × (reason_code_fits value ≡ true)
unfolding validate_reason_code
validate_reason_code-eq-ok value h = (ground arith, ground arith)

pub validate_reason_code_accepts :
    (value : Text) → reason_code_fits value ≡ true → validate_reason_code value ≡ ok value
unfolding validate_reason_code
validate_reason_code_accepts value h = ground arith

-- What `NewDecision` asks of its input.
abbrev pub decision_fits : DecisionInput → Bool
decision_fits input =
    ((not (is_empty (trim_space input.id)) && target_kind_valid input.target_kind)
      && (not (is_empty (trim_space input.target_id)) && outcome_valid input.outcome))
    && ((reason_code_fits input.reason_code && authority_valid input.authority)
        && (not (is_zero input.recorded_at)
            && not (same (trim_space input.supersedes_id) (trim_space input.id))))

abbrev pub decided_content : DecisionInput → DecisionInput
decided_content input = record {
  id = trim_space input.id;
  target_kind = input.target_kind;
  target_id = trim_space input.target_id;
  outcome = input.outcome;
  reason_code = input.reason_code;
  authority = input.authority;
  recorded_at = normalize input.recorded_at;
  supersedes_id = trim_space input.supersedes_id;
}

abbrev pub decided : (Text → Text) → DecisionInput → Decision
decided sha256 input = record {
  content = decided_content input;
  digest = digest_decision sha256 (decided_content input);
}

-- `NewDecision` accepts every input that is fit.
pub new_decision_accepts :
    (sha256 : Text → Text) (input : DecisionInput)
    → decision_fits input ≡ true
    → new_decision sha256 input ≡ ok (decided sha256 input)
unfolding new_decision
new_decision_accepts sha256 input h =
    let (id, kind, target, outcome, reason, authority, recorded, other) =
      parts (is_empty (trim_space input.id)) (target_kind_valid input.target_kind)
        (is_empty (trim_space input.target_id)) (outcome_valid input.outcome)
        (reason_code_fits input.reason_code) (authority_valid input.authority)
        (is_zero input.recorded_at) (same (trim_space input.supersedes_id) (trim_space input.id))
        h in
    rw
      (
        id,
        kind,
        target,
        outcome,
        validate_reason_code_accepts input.reason_code reason,
        authority,
        recorded,
        other,
      )
      refl
  where
    parts :
        (a b c d e f g i : Bool)
        → (((not a && b) && (not c && d)) && ((e && f) && (not g && not i))) ≡ true
        → (a ≡ false)
          × (b ≡ true)
          × (c ≡ false)
          × (d ≡ true)
          × (e ≡ true)
          × (f ≡ true)
          × (g ≡ false)
          × (i ≡ false)
    parts a b c d e f g i h = (
      ground arith,
      ground arith,
      ground arith,
      ground arith,
      ground arith,
      ground arith,
      ground arith,
      ground arith,
    )

accepted_fits :
    (sha256 : Text → Text) (input : DecisionInput) (value : Decision)
    → new_decision sha256 input ≡ ok value
    → decision_fits input ≡ true
unfolding new_decision
accepted_fits sha256 input value h =
    let (id, h1) = refuse->>-eq-ok (is_empty (trim_space input.id)) _ _ h in
    let (kind, h2) = refuse->>-eq-ok (not (target_kind_valid input.target_kind)) _ _ h1 in
    let (target, h3) = refuse->>-eq-ok (is_empty (trim_space input.target_id)) _ _ h2 in
    let (outcome, h4) = refuse->>-eq-ok (not (outcome_valid input.outcome)) _ _ h3 in
    let (reason, r, h5) = >>=-eq-ok _ _ h4 in
    let (same_reason, fit) =
      validate_reason_code-eq-ok input.reason_code
        (wrap-eq-ok _ (validate_reason_code input.reason_code) r) in
    let (authority, h6) = refuse->>-eq-ok (not (authority_valid input.authority)) _ _ h5 in
    let (recorded, h7) = refuse->>-eq-ok (is_zero input.recorded_at) _ _ h6 in
    let (other, h8) =
      refuse->>-eq-ok (same (trim_space input.supersedes_id) (trim_space input.id)) _ _ h7 in
    joined (is_empty (trim_space input.id)) (target_kind_valid input.target_kind)
      (is_empty (trim_space input.target_id)) (outcome_valid input.outcome)
      (reason_code_fits input.reason_code) (authority_valid input.authority)
      (is_zero input.recorded_at) (same (trim_space input.supersedes_id) (trim_space input.id)) id
      kind target outcome fit authority recorded other
  where
    joined :
        (a b c d e f g i : Bool)
        → a ≡ false
        → not b ≡ false
        → c ≡ false
        → not d ≡ false
        → e ≡ true
        → not f ≡ false
        → g ≡ false
        → i ≡ false
        → (((not a && b) && (not c && d)) && ((e && f) && (not g && not i))) ≡ true
    joined a b c d e f g i p q r s t u v w = ground arith

-- A decision that is accepted has known kinds, a reason code that is kept as it is, and a
-- predecessor other than itself; the texts are trimmed, the time is normalized and the digest is
-- that of the fields.
pub new_decision-eq-ok :
    (sha256 : Text → Text) (input : DecisionInput) (value : Decision)
    → new_decision sha256 input ≡ ok value
    → (value ≡ decided sha256 input) × (decision_fits input ≡ true)
new_decision-eq-ok sha256 input value h =
    let fits = accepted_fits sha256 input value h in
    let built = new_decision_accepts sha256 input fits in (cc, fits)

-- The reason code of an accepted decision has at most 512 bytes.
pub new_decision_bound :
    (sha256 : Text → Text) (input : DecisionInput) (value : Decision)
    → new_decision sha256 input ≡ ok value
    → length value.reason_code ≤ 512
new_decision_bound sha256 input value h =
    let (built, fits) = new_decision-eq-ok sha256 input value h in
    let fit = reason _ (reason_code_fits input.reason_code) _ _ fits in
    rw built (ground (arith, length-rune_count input.reason_code, fit))
  where
    reason : (a e f g : Bool) → (a && ((e && f) && g)) ≡ true → e ≡ true
    reason a e f g h = ground arith
