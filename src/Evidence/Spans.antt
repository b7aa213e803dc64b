-- ===== src/Evidence/Spans.antt =====
-- core/evidence/document.go: the citations of a document's text.
use stacks.Base.{
  ℕ, zero, suc, ◌-◌, Bool, false, not, ◌&&◌, ◌||◌, [], ◌∷◌, Option, none, some, Text, bytes,
  is_empty, trim_space, same, text_order, ltb, leb, ◌==◌, length, Result, ok, err, refuse, ◌>>=◌,
  ◌>>◌,
}
use stacks.Timepoint.{Time, is_zero, normalize}
use stacks.CanonicalHash.{string, bytes as bytes_field, uint64, time, new, sum}
use stacks.Encodings.Ints.{ℤ, pos, negsuc, to_uint64}
use stacks.Encodings.Utf8.{continues}
use stacks.Evidence.Contents.{ContentDigest, digest_string}
use stacks.Evidence.Sections.{Section}
use stacks.Evidence.Documents.{DocumentVersion, section_by_id, document_digest_version}

pub record EvidenceSpanInput : Type 0 where
  pub document : DocumentVersion
  pub section_id : Text
  pub start_offset : ℤ
  pub end_offset : ℤ
  pub quote : Text
  pub recorded_at : Time

pub record EvidenceSpan : Type 0 where
  pub provider : Text
  pub provider_document_id : Text
  pub document_digest : ContentDigest
  pub id : Text
  pub locator : Text
  pub section_id : Text
  pub start_offset : ℤ
  pub end_offset : ℤ
  pub text : Text
  pub recorded_at : Time

abbrev pub evidence_id_version : Text
evidence_id_version = bytes "stacks.evidence-id.v1.source-span"

abbrev pub evidence_span_digest_version : Text
evidence_span_digest_version = bytes "stacks.evidence-span.v1"

-- `SourceSpanID`
unfoldable pub source_span_id : (Text → Text) → DocumentVersion → Text → ℤ → ℤ → Text
source_span_id sha256 document section_id start_offset end_offset = digest_string (
    sum sha256 (
      new evidence_id_version (
        string document.provider
        ∷ string document.provider_document_id
        ∷ string document_digest_version
        ∷ bytes_field document.digest
        ∷ string section_id
        ∷ uint64 (to_uint64 start_offset)
        ∷ uint64 (to_uint64 end_offset)
        ∷ [])))

-- `EvidenceSpan.Digest`
unfoldable pub span_digest : (Text → Text) → EvidenceSpan → ContentDigest
span_digest sha256 span =
    sum sha256 (new evidence_span_digest_version (string span.id ∷ time span.recorded_at ∷ []))

unfoldable pub take : ℕ → Text → Text
take zero text = []
take (suc n) [] = []
take (suc n) (b ∷ text) = b ∷ take n text

unfoldable pub drop : ℕ → Text → Text
drop zero text = text
drop (suc n) [] = []
drop (suc n) (b ∷ text) = drop n text

-- `text[start:end]`, within the bounds of the text.
abbrev pub slice : Text → ℕ → ℕ → Text
slice text start end = take (end - start) (drop start text)

-- Whether the byte at an offset within the text continues a rune: `text[offset]&0xc0 == 0x80`.
unfoldable pub continues_at : Text → ℕ → Bool
continues_at [] n = false
continues_at (b ∷ text) zero = continues b
continues_at (b ∷ text) (suc n) = continues_at text n

-- `utf8ByteBoundary`, at an offset that is not negative.
unfoldable pub utf8_byte_boundary : Text → ℕ → Bool
utf8_byte_boundary text offset =
    offset == 0
    || offset == length text
    || (ltb 0 offset && ltb offset (length text) && not (continues_at text offset))

-- The tests of the offsets, and of the quote, against the text of the section.
unfoldable pub check_quote : Text → ℤ → ℤ → Text → Result (Unit {0})
check_quote text (negsuc start) end quote = err "evidence offsets are outside section text"
check_quote text (pos start) (negsuc end) quote = err "evidence offsets are outside section text"
check_quote text (pos start) (pos end) quote = do
  refuse (leb end start || ltb (length text) end) "evidence offsets are outside section text"
  refuse (not (utf8_byte_boundary text start) || not (utf8_byte_boundary text end))
      "evidence offsets must align to UTF-8 rune boundaries"
  refuse (not (same (slice text start end) quote))
      "evidence quote does not exactly match section text"

unfoldable pub required_section : Option Section → Result Section
required_section none = err "evidence section %q does not exist in document"
required_section (some section) = ok section

-- `NewEvidenceSpan`, for a SHA-256 function.
unfoldable pub new_evidence_span : (Text → Text) → EvidenceSpanInput → Result EvidenceSpan
new_evidence_span sha256 input = do
  refuse (is_empty input.document.provider || is_empty input.document.provider_document_id)
      "evidence document is required"
  refuse (is_zero input.recorded_at) "evidence recorded time is required"
  let section_id = trim_space input.section_id
  refuse (is_empty section_id) "evidence section ID is required"
  section ← required_section (section_by_id section_id input.document.sections)
  check_quote section.text input.start_offset input.end_offset input.quote
  ok (record {
    provider = input.document.provider;
    provider_document_id = input.document.provider_document_id;
    document_digest = input.document.digest;
    id = source_span_id sha256 input.document section_id input.start_offset input.end_offset;
    locator = input.document.locator;
    section_id = section_id;
    start_offset = input.start_offset;
    end_offset = input.end_offset;
    text = input.quote;
    recorded_at = normalize input.recorded_at;
  })
