-- ===== src/Evidence/Accepted.antt =====
-- What `NewEvidence` and `NewSection` accept and return (core/evidence).
use stacks.Base.{
  ◌≡◌, refl, Bool, true, false, not, ◌&&◌, List, [], ◌∷◌, map, Text, same, text_order, is_empty,
  trim_space, ok, >>=-eq-ok, arith, refuse->>-eq-ok,
}
use stacks.Timepoint.{is_zero, normalize}
use stacks.Encodings.Ints.{negative}
use stacks.Encodings.Utf8.{valid_string}
use stacks.Evidence.Contents.{Evidence, new_evidence, zero_digest}
use stacks.Evidence.Sections.{Section, new_section, trim_path}

-- What `NewEvidence` asks of its input.
abbrev pub evidence_fits : Evidence → Bool
evidence_fits input =
    ((not (is_empty (trim_space input.id)) && not (is_empty (trim_space input.source.provider)))
      && not (is_empty (trim_space input.source.document_id)))
    && (not (is_zero input.recorded_at) && not (same input.digest zero_digest))

abbrev pub evidenced : Evidence → Evidence
evidenced input = record {
  id = trim_space input.id;
  source = record {
    provider = trim_space input.source.provider;
    document_id = trim_space input.source.document_id;
    version = trim_space input.source.version;
    locator = trim_space input.source.locator;
  };
  digest = input.digest;
  recorded_at = normalize input.recorded_at;
}

-- `NewEvidence` accepts every input that is fit.
pub new_evidence_accepts :
    (input : Evidence) → evidence_fits input ≡ true → new_evidence input ≡ ok (evidenced input)
unfolding new_evidence
new_evidence_accepts input h = ground arith

-- Evidence that is accepted has an identifier, a provider, a document, a time and a content digest
-- that are not the zero values, its texts are trimmed and its time is normalized.
pub new_evidence-eq-ok :
    (input value : Evidence)
    → new_evidence input ≡ ok value
    → (value ≡ evidenced input) × (evidence_fits input ≡ true)
unfolding new_evidence
new_evidence-eq-ok input value h =
    let (id, h1) = refuse->>-eq-ok (is_empty (trim_space input.id)) _ _ h in
    let (provider, h2) = refuse->>-eq-ok (is_empty (trim_space input.source.provider)) _ _ h1 in
    let (document, h3) = refuse->>-eq-ok (is_empty (trim_space input.source.document_id)) _ _ h2 in
    let (recorded, h4) = refuse->>-eq-ok (is_zero input.recorded_at) _ _ h3 in
    let (digest, h5) = refuse->>-eq-ok (same input.digest zero_digest) _ _ h4 in
    let fits : evidence_fits input ≡ true = rw (id, provider, document, recorded, digest) refl in
    let built = new_evidence_accepts input fits in (cc, fits)

abbrev pub titles_fit : List Text → Bool
titles_fit [] = true
titles_fit (title ∷ path) = not (is_empty (trim_space title)) && titles_fit path

trim_path-eq-ok :
    (path : List Text) {result : List Text}
    → trim_path path ≡ ok result
    → (result ≡ map trim_space path) × (titles_fit path ≡ true)
unfolding trim_path
trim_path-eq-ok [] h = (cc, refl)
trim_path-eq-ok (title ∷ path) h =
    let (named, h1) = refuse->>-eq-ok (is_empty (trim_space title)) _ _ h in
    let (rest, r, h2) = >>=-eq-ok (trim_path path) _ h1 in
    let (same_rest, fit) = trim_path-eq-ok path r in (cc, rw (named, fit) refl)

trim_path_accepts :
    (path : List Text) → titles_fit path ≡ true → trim_path path ≡ ok (map trim_space path)
unfolding trim_path
trim_path_accepts [] h = refl
trim_path_accepts (title ∷ path) h =
    rw
      (
        front (is_empty (trim_space title)) (titles_fit path) h,
        trim_path_accepts path (rest (is_empty (trim_space title)) (titles_fit path) h),
      )
      refl
  where
    front : (a b : Bool) → (not a && b) ≡ true → a ≡ false
    front a b h = ground arith

    rest : (a b : Bool) → (not a && b) ≡ true → b ≡ true
    rest a b h = ground arith

-- What `NewSection` asks of its input.
abbrev pub section_fits : Section → Bool
section_fits input =
    ((not (is_empty (trim_space input.id)) && not (is_empty (trim_space input.title)))
      && not (is_empty (trim_space input.role)))
    && ((not (negative input.order) && valid_string input.text) && titles_fit input.path)

abbrev pub sectioned : Section → Section
sectioned input = record {
  id = trim_space input.id;
  title = trim_space input.title;
  parent_id = trim_space input.parent_id;
  path = map trim_space input.path;
  order = input.order;
  role = trim_space input.role;
  text = input.text;
}

-- `NewSection` accepts every input that is fit.
pub new_section_accepts :
    (input : Section) → section_fits input ≡ true → new_section input ≡ ok (sectioned input)
unfolding new_section
new_section_accepts input h =
    let (id, title, role, order, text, path) =
      parts (is_empty (trim_space input.id)) (is_empty (trim_space input.title))
        (is_empty (trim_space input.role)) (negative input.order) (valid_string input.text)
        (titles_fit input.path) h in
    rw (id, title, role, order, text, trim_path_accepts input.path path) refl
  where
    parts :
        (a b c d e f : Bool)
        → (((not a && not b) && not c) && ((not d && e) && f)) ≡ true
        → (a ≡ false) × (b ≡ false) × (c ≡ false) × (d ≡ false) × (e ≡ true) × (f ≡ true)
    parts a b c d e f h =
        (ground arith, ground arith, ground arith, ground arith, ground arith, ground arith)

-- A section that is accepted has an identifier, a title, a role and titles on its path, an order
-- that is not negative and a text that is valid UTF-8, and keeps this text.
pub new_section-eq-ok :
    (input section : Section)
    → new_section input ≡ ok section
    → (section ≡ sectioned input) × (section_fits input ≡ true)
unfolding new_section
new_section-eq-ok input section h =
    let (id, h1) = refuse->>-eq-ok (is_empty (trim_space input.id)) _ _ h in
    let (title, h2) = refuse->>-eq-ok (is_empty (trim_space input.title)) _ _ h1 in
    let (role, h3) = refuse->>-eq-ok (is_empty (trim_space input.role)) _ _ h2 in
    let (order, h4) = refuse->>-eq-ok (negative input.order) _ _ h3 in
    let (text, h5) = refuse->>-eq-ok (not (valid_string input.text)) _ _ h4 in
    let (path, p, h6) = >>=-eq-ok (trim_path input.path) _ h5 in
    let (same_path, fit) = trim_path-eq-ok input.path p in
    let fits : section_fits input ≡ true =
      rw (id, title, role, order, not-eq-false (valid_string input.text) text, fit) refl in
    let built = new_section_accepts input fits in (cc, fits)
  where
    not-eq-false : (b : Bool) → not b ≡ false → b ≡ true
    not-eq-false b h = ground arith
