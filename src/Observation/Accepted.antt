-- ===== src/Observation/Accepted.antt =====
-- What `NewObservation` accepts and returns (core/observation/observation.go).
use stacks.Base.{
  ◌≡◌, refl, sym, ap, ◌∙◌, Bool, true, false, not, ◌&&◌, List, [], Text, same, text_order,
  pair_order, is_empty, trim_space, ok, >>=-eq-ok, arith, if◌then◌else◌, refuse->>-eq-ok, Option,
  none, some,
}
use mathlib.Core.List.{Permᴰ}
use stacks.Observation.Digests.{EvidenceLink, Content, digest_observation, Derivation}
use stacks.Observation.Confidences.{
  Confidence, validate_confidence, in_unit_interval, confidence_unit_interval,
}
use stacks.Observation.Claims.{
  only_space, ObservationInput, Observation, normalize_evidence_links, new_observation,
  normalize_derivation, check_confidence, new_predicate, status_valid,
}
use stacks.Timepoint.{is_zero, normalize}
use stacks.Observation.Links.{
  has_links, links_fit, normalized, normalized_order, normalize_evidence_links-eq-ok,
  normalize_evidence_links_accepts,
}

-- The derivation names a method and a version; the optional parts are not blank, and a model comes
-- with its prompt version.
abbrev pub derivation_fits : Derivation → Bool
derivation_fits d =
    not (is_empty (trim_space d.method))
    && not (is_empty (trim_space d.version))
    && (not (only_space d.run_id) && not (only_space d.model) && not (only_space d.prompt_version))
    && not (if is_empty d.model then not (is_empty d.prompt_version) else is_empty d.prompt_version)

abbrev pub confidence_fits : Option Confidence → Bool
confidence_fits none = true
confidence_fits (some c) = same c.scale confidence_unit_interval && in_unit_interval c.value

normalize_derivation-eq-ok :
    (d : Derivation) {result : Derivation}
    → normalize_derivation d ≡ ok result
    → (d ≡ result) × (derivation_fits d ≡ true)
unfolding normalize_derivation
normalize_derivation-eq-ok d h = (ground arith, ground arith)

normalize_derivation_accepts :
    (d : Derivation) → derivation_fits d ≡ true → normalize_derivation d ≡ ok d
unfolding normalize_derivation
normalize_derivation_accepts d h = ground arith

check_confidence-eq-ok :
    (c : Option Confidence) {result : Option Confidence}
    → check_confidence c ≡ ok result
    → (c ≡ result) × (confidence_fits c ≡ true)
unfolding check_confidence validate_confidence
check_confidence-eq-ok none h = (ground arith, refl)
check_confidence-eq-ok (some c) h = (ground arith, ground arith)

check_confidence_accepts :
    (c : Option Confidence) → confidence_fits c ≡ true → check_confidence c ≡ ok c
unfolding check_confidence validate_confidence
check_confidence_accepts none h = refl
check_confidence_accepts (some c) h = ground arith

-- What `NewObservation` asks of its input.
abbrev pub observation_fits : ObservationInput → Bool
observation_fits input =
    ((not (is_empty (trim_space input.id)) && not (is_empty (trim_space input.statement.predicate)))
      && not (is_zero input.recorded_at))
    && (((has_links input.evidence && links_fit input.evidence [])
          && derivation_fits input.derivation)
        && (status_valid input.status && confidence_fits input.confidence))

abbrev pub observed_content : ObservationInput → Content
observed_content input = record {
  statement = record {
    subject = input.statement.subject;
    predicate = input.statement.predicate;
    object = input.statement.object;
  };
  valid_time = input.valid_time;
  recorded_at = normalize input.recorded_at;
  evidence = normalized input.evidence;
  derivation = input.derivation;
  status = input.status;
  confidence = input.confidence;
}

-- The observation of an input.
abbrev pub observed : (Text → Text) → ObservationInput → Observation
observed sha256 input = record {
  id = trim_space input.id;
  content = observed_content input;
  digest = digest_observation sha256 (observed_content input);
}

-- `NewObservation` accepts every input that is fit.
pub new_observation_accepts :
    (sha256 : Text → Text) (input : ObservationInput)
    → observation_fits input ≡ true
    → new_observation sha256 input ≡ ok (observed sha256 input)
unfolding new_observation new_predicate
new_observation_accepts sha256 input h =
    let (id, predicate, recorded, links, derivation, status, confidence) =
      parts (is_empty (trim_space input.id)) (is_empty (trim_space input.statement.predicate))
        (is_zero input.recorded_at) _ _ (status_valid input.status) _ h in
    rw (
      id,
      predicate,
      recorded,
      normalize_evidence_links_accepts input.evidence links,
      normalize_derivation_accepts input.derivation derivation,
      status,
      check_confidence_accepts input.confidence confidence,
    )
  where
    parts :
        (a b c d e f g : Bool)
        → (((not a && not b) && not c) && ((d && e) && (f && g))) ≡ true
        → (a ≡ false)
          × (b ≡ false)
          × (c ≡ false)
          × (d ≡ true)
          × (e ≡ true)
          × (f ≡ true)
          × (g ≡ true)
    parts a b c d e f g h = (
      ground arith,
      ground arith,
      ground arith,
      ground arith,
      ground arith,
      ground arith,
      ground arith,
    )

new_predicate-eq-ok :
    (value : Text) {result : Text}
    → new_predicate value ≡ ok result
    → (value ≡ result) × (is_empty (trim_space value) ≡ false)
unfolding new_predicate
new_predicate-eq-ok value h = (ground arith, ground arith)

accepted_fits :
    (sha256 : Text → Text) (input : ObservationInput) (o : Observation)
    → new_observation sha256 input ≡ ok o
    → observation_fits input ≡ true
unfolding new_observation
accepted_fits sha256 input o h =
    let (id, h1) = refuse->>-eq-ok (is_empty (trim_space input.id)) _ _ h in
    let (predicate, p, h2) = >>=-eq-ok (new_predicate input.statement.predicate) _ h1 in
    let (same_predicate, named) = new_predicate-eq-ok input.statement.predicate p in
    let (recorded, h3) = refuse->>-eq-ok (is_zero input.recorded_at) _ _ h2 in
    let (links, l, h4) = >>=-eq-ok (normalize_evidence_links input.evidence) _ h3 in
    let (same_links, linked) = normalize_evidence_links-eq-ok input.evidence l in
    let (derivation, d, h5) = >>=-eq-ok (normalize_derivation input.derivation) _ h4 in
    let (same_derivation, derived) = normalize_derivation-eq-ok input.derivation d in
    let (status, h6) = refuse->>-eq-ok (not (status_valid input.status)) _ _ h5 in
    let (confidence, c, h7) = >>=-eq-ok (check_confidence input.confidence) _ h6 in
    let (same_confidence, confident) = check_confidence-eq-ok input.confidence c in
    joined (is_empty (trim_space input.id)) (is_empty (trim_space input.statement.predicate))
      (is_zero input.recorded_at) _ _ (status_valid input.status) _ id named recorded linked derived
      status confident
  where
    joined :
        (a b c d e f g : Bool)
        → a ≡ false
        → b ≡ false
        → c ≡ false
        → d ≡ true
        → e ≡ true
        → not f ≡ false
        → g ≡ true
        → (((not a && not b) && not c) && ((d && e) && (f && g))) ≡ true
    joined a b c d e f g p q r s t u v = ground arith

-- An input that `NewObservation` accepts is fit, and the observation has the trimmed identifier, the
-- input's fields with the instant normalized and the links trimmed and sorted, and their digest.
pub new_observation-eq-ok :
    (sha256 : Text → Text) (input : ObservationInput) (o : Observation)
    → new_observation sha256 input ≡ ok o
    → (o ≡ observed sha256 input) × (observation_fits input ≡ true)
new_observation-eq-ok sha256 input o h =
    let fits = accepted_fits sha256 input o h in
    let built = new_observation_accepts sha256 input fits in (cc, fits)

-- The order in which an input lists its evidence does not matter: an input that is accepted is
-- accepted with its links in any order, and gives the same observation.
pub new_observation_order :
    (sha256 : Text → Text) (input : ObservationInput) (listed : List EvidenceLink) (o : Observation)
    → new_observation sha256 input ≡ ok o
    → Permᴰ input.evidence listed
    → new_observation sha256 (record input { evidence = listed }) ≡ ok o
new_observation_order sha256 input listed o h p =
    let (built, fits) = new_observation-eq-ok sha256 input o h in
    let (listed_fit, same_links) =
      normalized_order input.evidence listed p
        (linked _ _ (derivation_fits input.derivation) _ fits) in
    let listed_fits = refit _ _ _ (derivation_fits input.derivation) _ fits listed_fit in
    new_observation_accepts sha256 (record input { evidence = listed }) listed_fits
    ∙ ap ok (rw same_links (sym built))
  where
    linked : (a l d r : Bool) → (a && ((l && d) && r)) ≡ true → l ≡ true
    linked a l d r h = ground arith

    refit :
        (a l m d r : Bool)
        → (a && ((l && d) && r)) ≡ true
        → m ≡ true
        → (a && ((m && d) && r)) ≡ true
    refit a l m d r h k = ground arith
