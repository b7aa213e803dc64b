-- ===== src/Evidence/Documents.antt =====
-- core/evidence/document.go: the versions of a document. The zero value `Section{}` that
-- `sectionByID` returns with `false` is `none`.
use stacks.Base.{
  Bool, true, false, ◌||◌, List, [], ◌∷◌, ◌++◌, Option, none, some, Text, bytes, is_empty,
  trim_space, same, text_order, member, add, length, Result, ok, refuse, ◌>>=◌, ◌>>◌, if◌then◌else◌,
}
use stacks.Timepoint.{Time, is_zero, normalize}
use stacks.CanonicalHash.{Field, string, bytes as bytes_field, uint64, bool, time, new, sum}
use stacks.Encodings.Ints.{to_uint64}
use stacks.Evidence.Contents.{ContentDigest, digest_content}
use stacks.Evidence.Sections.{Section}

pub record DocumentVersionInput : Type 0 where
  pub provider : Text
  pub provider_document_id : Text
  pub title : Text
  pub locator : Text
  pub provider_version : Text
  pub modified_at : Time
  pub recorded_at : Time
  pub source_time : Option Time
  pub sections : List Section

-- The fields of a version, with its digest.
pub record DocumentVersion : Type 0 where
  pub content : DocumentVersionInput
  pub open content use *
  pub digest : ContentDigest

abbrev pub document_digest_version : Text
document_digest_version = bytes "stacks.document.v3.utc-microsecond"

unfoldable pub section_by_id : Text → List Section → Option Section
section_by_id id [] = none
section_by_id id (section ∷ sections) =
    if same section.id id then some section else section_by_id id sections

abbrev pub write_texts : List Text → List Field
write_texts [] = []
write_texts (text ∷ texts) = string text ∷ write_texts texts

-- The fields of one section.
unfoldable pub section_fields : (Text → Text) → Section → List Field
section_fields sha256 section =
    string section.id
      ∷ string section.title
      ∷ string section.parent_id
      ∷ uint64 (length section.path)
      ∷ write_texts section.path
    ++ (uint64 (to_uint64 section.order)
        ∷ string section.role
        ∷ bytes_field (digest_content sha256 section.text)
        ∷ [])

unfoldable pub write_sections : (Text → Text) → List Section → List Field
write_sections sha256 [] = []
write_sections sha256 (section ∷ sections) =
    section_fields sha256 section ++ write_sections sha256 sections

unfoldable pub write_source_time : Option Time → List Field
write_source_time none = bool false ∷ []
write_source_time (some t) = bool true ∷ time t ∷ []

-- `digestCanonicalDocumentVersion`
unfoldable pub digest_document : (Text → Text) → DocumentVersionInput → ContentDigest
digest_document sha256 version = sum sha256 (
    new document_digest_version (
      string version.title
        ∷ string version.locator
        ∷ string version.provider_version
        ∷ time version.modified_at
        ∷ write_source_time version.source_time
      ++ (uint64 (length version.sections) ∷ write_sections sha256 version.sections)))

-- The loop that checks the identifiers of the sections.
unfoldable pub check_sections : List Section → List Text → Result (Unit {0})
check_sections [] seen = ok tt
check_sections (section ∷ sections) seen = do
  refuse (is_empty section.id) "document section: ID is required"
  refuse (member section.id seen) "document section IDs must be unique"
  check_sections sections (add section.id seen)

unfoldable pub normalize_source_time : Option Time → Result (Option Time)
normalize_source_time none = ok none
normalize_source_time (some t) = do
  refuse (is_zero t) "document source time must not be zero"
  ok (some (normalize t))

abbrev pub no_sections : List Section → Bool
no_sections [] = true
no_sections (section ∷ sections) = false

-- `NewDocumentVersion`, for a SHA-256 function.
unfoldable pub new_document_version : (Text → Text) → DocumentVersionInput → Result DocumentVersion
new_document_version sha256 input = do
  let provider = trim_space input.provider
  let provider_document_id = trim_space input.provider_document_id
  refuse (is_empty provider) "document provider is required"
  refuse (is_empty provider_document_id) "provider document ID is required"
  refuse (is_zero input.recorded_at) "document recorded time is required"
  let title = trim_space input.title
  let locator = trim_space input.locator
  let provider_version = trim_space input.provider_version
  refuse
      (is_empty title || is_empty locator || is_empty provider_version || is_zero input.modified_at)
      "document source provenance is required"
  refuse (no_sections input.sections) "document sections are required"
  check_sections input.sections []
  source_time ← normalize_source_time input.source_time
  let version : DocumentVersionInput = record {
    provider = provider;
    provider_document_id = provider_document_id;
    title = title;
    locator = locator;
    provider_version = provider_version;
    modified_at = normalize input.modified_at;
    recorded_at = normalize input.recorded_at;
    source_time = source_time;
    sections = input.sections;
  }
  ok (record { content = version; digest = digest_document sha256 version })
