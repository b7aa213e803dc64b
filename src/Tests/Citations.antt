-- ===== src/Tests/Citations.antt =====
-- A document whose text has a rune of two bytes, a citation of this rune, and a digest in hexadecimal.
use stacks.Base.{list_cmp, ◌≡◌, refl, true, [], ◌∷◌, bytes, ok, some, none, all, trim_space}
use stacks.Evidence.Spans.{
  take, drop, check_quote, continues_at, utf8_byte_boundary, required_section, EvidenceSpanInput,
  new_evidence_span,
}
use stacks.Timepoint.{is_zero}
use stacks.Tests.Samples.{moment, identity_hash}
use stacks.Encodings.Ints.{pos}
use stacks.Encodings.Utf8.{valid_string, valid_from, width}
use stacks.Evidence.Contents.{
  ContentDigest, is_digest, parse_content_digest, digest_string, parse_content_digest-digest_string,
}
use stacks.Evidence.Sections.{Section}
use stacks.Evidence.Documents.{DocumentVersion, section_by_id}
use stacks.Evidence.Quotes.{spanned, Cites, new_evidence_span-Cites, new_evidence_span_valid}

-- The text "AéB".
abbrev accented : Section
accented = record {
  id = bytes "s1";
  title = bytes "Notes";
  parent_id = [];
  path = [];
  order = pos 0;
  role = bytes "body";
  text = 65 ∷ 0xC3 ∷ 0xA9 ∷ 66 ∷ [];
}

abbrev notes : DocumentVersion
notes = record {
  content = record {
    provider = bytes "drive";
    provider_document_id = bytes "d1";
    title = bytes "Notes";
    locator = bytes "drive:d1";
    provider_version = bytes "1";
    modified_at = moment 1000;
    recorded_at = moment 2000;
    source_time = none;
    sections = accented ∷ [];
  };
  digest = [];
}

-- A citation of the second rune.
abbrev rune_citation : EvidenceSpanInput
rune_citation = record {
  document = notes;
  section_id = bytes " s1";
  start_offset = pos 1;
  end_offset = pos 3;
  quote = 0xC3 ∷ 0xA9 ∷ [];
  recorded_at = moment 3000;
}

cited : new_evidence_span identity_hash rune_citation ≡ ok (spanned identity_hash rune_citation)
unfolding new_evidence_span bytes is_zero trim_space required_section section_by_id list_cmp
    check_quote utf8_byte_boundary continues_at take drop
cited = refl

found : section_by_id (trim_space rune_citation.section_id) notes.sections ≡ some accented
unfolding section_by_id bytes list_cmp trim_space
found = refl

valid : valid_string accented.text ≡ true
unfolding valid_string valid_from width
valid = refl

new_evidence_span-Cites_example :
    Cites identity_hash rune_citation (spanned identity_hash rune_citation)
new_evidence_span-Cites_example =
    new_evidence_span-Cites identity_hash rune_citation (spanned identity_hash rune_citation) cited

new_evidence_span_valid_example : valid_string (0xC3 ∷ 0xA9 ∷ []) ≡ true
new_evidence_span_valid_example =
    new_evidence_span_valid identity_hash rune_citation (spanned identity_hash rune_citation)
      accented found valid cited

abbrev counted_bytes : ContentDigest
counted_bytes =
    0 ∷ 1 ∷ 2 ∷ 3 ∷ 4 ∷ 5 ∷ 6 ∷ 7 ∷ 8 ∷ 9 ∷ 10 ∷ 11 ∷ 12 ∷ 13 ∷ 14 ∷ 15 ∷ 240 ∷ 241 ∷ 242 ∷ 243
    ∷ 244 ∷ 245 ∷ 246 ∷ 247 ∷ 248 ∷ 249 ∷ 250 ∷ 251 ∷ 252 ∷ 253 ∷ 254 ∷ 255 ∷ []

sized : is_digest counted_bytes ≡ true
unfolding all
sized = refl

parse_content_digest-digest_string_example :
    parse_content_digest (digest_string counted_bytes) ≡ ok counted_bytes
parse_content_digest-digest_string_example = parse_content_digest-digest_string counted_bytes sized
