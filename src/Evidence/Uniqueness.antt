-- ===== src/Evidence/Uniqueness.antt =====
-- What `NewDocumentVersion` accepts and returns (core/evidence/document.go).
use mathlib.Core.Path.{subst}
use stacks.Timepoint.{Time, is_zero, normalize}
use stacks.Base.{
  same_refl, same→eq, is_some, ◌≡◌, refl, sym, Bool, true, false, not, ◌&&◌, ◌||◌, List, [], ◌∷◌,
  map, Text, text_order, is_empty, trim_space, member, add, ok, >>=-eq-ok, arith, refuse->>-eq-ok,
  Option, none, some, All,
}
use stacks.Base.Distinct.{all_new_apart, all_new, all_new_agree, add_agrees}
use stacks.Evidence.Sections.{Section}
use stacks.Evidence.Documents.{
  DocumentVersionInput, DocumentVersion, section_by_id, check_sections, normalize_source_time,
  no_sections, new_document_version, digest_document,
}

abbrev pub identifiers : List Section → List Text
identifiers = map (λ s. s.id)

abbrev pub all_named : List Section → Bool
all_named [] = true
all_named (section ∷ sections) = not (is_empty section.id) && all_named sections

-- The sections have identifiers, and no two the same.
abbrev pub sections_fit : List Section → Bool
sections_fit sections =
    not (no_sections sections) && (all_named sections && all_new (identifiers sections) [])

check_sections_accepts :
    (sections : List Section) (seen : List Text)
    → (all_named sections && all_new (identifiers sections) seen) ≡ true
    → check_sections sections seen ≡ ok tt
unfolding check_sections
check_sections_accepts [] seen h = refl
check_sections_accepts (section ∷ sections) seen h =
    let agree =
      all_new_agree (identifiers sections) (add section.id seen) (section.id ∷ seen)
        (add_agrees section.id seen) in
    let (named, apart, rest) =
      parts (is_empty section.id) (all_named sections) (member section.id seen) _ h in
    rw (named, apart) (check_sections_accepts sections (add section.id seen) (rw agree rest))
  where
    parts :
        (e n m a : Bool)
        → ((not e && n) && (not m && a)) ≡ true
        → (e ≡ false) × (m ≡ false) × ((n && a) ≡ true)
    parts e n m a h = (ground arith, ground arith, ground arith)

check_sections-eq-ok :
    (sections : List Section) (seen : List Text)
    → check_sections sections seen ≡ ok tt
    → (all_named sections && all_new (identifiers sections) seen) ≡ true
unfolding check_sections
check_sections-eq-ok [] seen h = refl
check_sections-eq-ok (section ∷ sections) seen h =
    let agree =
      all_new_agree (identifiers sections) (add section.id seen) (section.id ∷ seen)
        (add_agrees section.id seen) in
    let (named, h1) = refuse->>-eq-ok (is_empty section.id) _ _ h in
    let (apart, h2) = refuse->>-eq-ok (member section.id seen) _ _ h1 in
    let rest = check_sections-eq-ok sections (add section.id seen) h2 in
    joined (is_empty section.id) (all_named sections) (member section.id seen) _ named apart
      (rw agree at rest)
  where
    joined :
        (e n m a : Bool)
        → e ≡ false
        → m ≡ false
        → (n && a) ≡ true
        → ((not e && n) && (not m && a)) ≡ true
    joined e n m a p q r = ground arith

is_some-section_by_id :
    (id : Text) (sections : List Section)
    → is_some (section_by_id id sections) ≡ member id (identifiers sections)
unfolding section_by_id member
is_some-section_by_id id [] = refl
is_some-section_by_id id (section ∷ sections) = ground (arith, is_some-section_by_id id sections)

abbrev Found : List Section → Section → Type 0
Found sections section = section_by_id section.id sections ≡ some section

Found-cons :
    (section : Section) (sections found : List Section)
    → section_by_id section.id sections ≡ none
    → All (Found sections) found
    → All (Found (section ∷ sections)) found
unfolding section_by_id
Found-cons section sections [] h k = tt
Found-cons section sections (f ∷ found) h k = (
  ground (arith, k.0, same→eq section.id f.id, same_refl f.id),
  Found-cons section sections found h k.1,
)

-- Sections that have different identifiers are found by them.
section_by_id-Found :
    (sections : List Section) (seen : List Text)
    → all_new (identifiers sections) seen ≡ true
    → All (λ s. section_by_id s.id sections ≡ some s) sections
unfolding section_by_id member
section_by_id-Found [] seen h = tt
section_by_id-Found (section ∷ sections) seen h =
    let rest : all_new (identifiers sections) (section.id ∷ seen) ≡ true = ground arith in
    let apart =
      all_new_apart (identifiers sections) (section.id ∷ seen) section.id rest
        (rw (member, same_refl) refl) in
    let absent : section_by_id section.id sections ≡ none =
      ground (arith, is_some-section_by_id section.id sections, apart) in
    (
      rw same_refl refl,
      Found-cons section sections sections absent
          (section_by_id-Found sections (section.id ∷ seen) rest),
    )

abbrev pub source_time_fits : Option Time → Bool
source_time_fits none = true
source_time_fits (some t) = not (is_zero t)

-- The texts and the times that name the source.
abbrev pub provenance_fits : DocumentVersionInput → Bool
provenance_fits input =
    ((not (is_empty (trim_space input.provider))
        && not (is_empty (trim_space input.provider_document_id)))
      && not (is_zero input.recorded_at))
    && not (
        is_empty (trim_space input.title)
        || is_empty (trim_space input.locator)
        || is_empty (trim_space input.provider_version)
        || is_zero input.modified_at)

-- What `NewDocumentVersion` asks of its input.
abbrev pub document_fits : DocumentVersionInput → Bool
document_fits input =
    provenance_fits input && (sections_fit input.sections && source_time_fits input.source_time)

abbrev pub normalized_source_time : Option Time → Option Time
normalized_source_time none = none
normalized_source_time (some t) = some (normalize t)

abbrev pub documented_content : DocumentVersionInput → DocumentVersionInput
documented_content input = record {
  provider = trim_space input.provider;
  provider_document_id = trim_space input.provider_document_id;
  title = trim_space input.title;
  locator = trim_space input.locator;
  provider_version = trim_space input.provider_version;
  modified_at = normalize input.modified_at;
  recorded_at = normalize input.recorded_at;
  source_time = normalized_source_time input.source_time;
  sections = input.sections;
}

-- The version of an input.
abbrev pub documented : (Text → Text) → DocumentVersionInput → DocumentVersion
documented sha256 input = record {
  content = documented_content input;
  digest = digest_document sha256 (documented_content input);
}

normalize_source_time_accepts :
    (t : Option Time)
    → source_time_fits t ≡ true
    → normalize_source_time t ≡ ok (normalized_source_time t)
unfolding normalize_source_time
normalize_source_time_accepts none h = refl
normalize_source_time_accepts (some t) h = ground arith

normalize_source_time-eq-ok :
    (t : Option Time) {result : Option Time}
    → normalize_source_time t ≡ ok result
    → source_time_fits t ≡ true
unfolding normalize_source_time
normalize_source_time-eq-ok none h = refl
normalize_source_time-eq-ok (some t) h = ground arith

-- `NewDocumentVersion` accepts every input that is fit.
pub new_document_version_accepts :
    (sha256 : Text → Text) (input : DocumentVersionInput)
    → document_fits input ≡ true
    → new_document_version sha256 input ≡ ok (documented sha256 input)
unfolding new_document_version
new_document_version_accepts sha256 input h =
    let (provider, id, recorded, provenance, some_sections, sections, source_time) =
      parts (is_empty (trim_space input.provider))
        (is_empty (trim_space input.provider_document_id)) (is_zero input.recorded_at) _
        (no_sections input.sections) _ _ h in
    rw (
      provider,
      id,
      recorded,
      provenance,
      some_sections,
      check_sections_accepts input.sections [] sections,
      normalize_source_time_accepts input.source_time source_time,
    )
  where
    parts :
        (a b c d e f g : Bool)
        → ((((not a && not b) && not c) && not d) && ((not e && f) && g)) ≡ true
        → (a ≡ false)
          × (b ≡ false)
          × (c ≡ false)
          × (d ≡ false)
          × (e ≡ false)
          × (f ≡ true)
          × (g ≡ true)
    parts a b c d e f g h = (
      ground arith,
      ground arith,
      ground arith,
      ground arith,
      ground arith,
      ground arith,
      ground arith,
    )

accepted_fits :
    (sha256 : Text → Text) (input : DocumentVersionInput) (version : DocumentVersion)
    → new_document_version sha256 input ≡ ok version
    → document_fits input ≡ true
unfolding new_document_version
accepted_fits sha256 input version h =
    let (provider, h1) = refuse->>-eq-ok (is_empty (trim_space input.provider)) _ _ h in
    let (id, h2) = refuse->>-eq-ok (is_empty (trim_space input.provider_document_id)) _ _ h1 in
    let (recorded, h3) = refuse->>-eq-ok (is_zero input.recorded_at) _ _ h2 in
    let (provenance, h4) = refuse->>-eq-ok _ _ _ h3 in
    let (some_sections, h5) = refuse->>-eq-ok (no_sections input.sections) _ _ h4 in
    let (checked, c, h6) = >>=-eq-ok (check_sections input.sections []) _ h5 in
    let (source_time, t, h7) = >>=-eq-ok (normalize_source_time input.source_time) _ h6 in
    joined (is_empty (trim_space input.provider)) (is_empty (trim_space input.provider_document_id))
      (is_zero input.recorded_at) _ (no_sections input.sections) _ _ provider id recorded provenance
      some_sections (check_sections-eq-ok input.sections [] c)
      (normalize_source_time-eq-ok input.source_time t)
  where
    joined :
        (a b c d e f g : Bool)
        → a ≡ false
        → b ≡ false
        → c ≡ false
        → d ≡ false
        → e ≡ false
        → f ≡ true
        → g ≡ true
        → ((((not a && not b) && not c) && not d) && ((not e && f) && g)) ≡ true
    joined a b c d e f g p q r s t u v = ground arith

-- An input that `NewDocumentVersion` accepts is fit, the version has the trimmed texts, the
-- normalized times and the digest of its fields, and each of its sections is the one that
-- `sectionByID` finds under the section's identifier.
pub new_document_version-eq-ok :
    (sha256 : Text → Text) (input : DocumentVersionInput) (version : DocumentVersion)
    → new_document_version sha256 input ≡ ok version
    → (version ≡ documented sha256 input)
      × (document_fits input ≡ true)
      × All (λ s. section_by_id s.id version.sections ≡ some s) version.sections
new_document_version-eq-ok sha256 input version h =
    let fits = accepted_fits sha256 input version h in
    let built = new_document_version_accepts sha256 input fits in
    let this : documented sha256 input ≡ version = cc in
    let found = section_by_id-Found input.sections [] (
      apart (provenance_fits input) (not (no_sections input.sections)) (all_named input.sections) _
        (source_time_fits input.source_time) fits) in
    (sym this, fits, subst (λ v. All (Found v.sections) v.sections) this found)
  where
    apart : (a b c d e : Bool) → (a && ((b && (c && d)) && e)) ≡ true → d ≡ true
    apart a b c d e h = ground arith
