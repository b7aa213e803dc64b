-- ===== src/Evidence/Contents.antt =====
-- core/evidence/evidence.go: content digests and source evidence.
--
-- A digest is the text of its 32 bytes. The types that are strings in the source are texts.
use stacks.Base.{
  ap, refuse->>-eq-ok, inr, inl, arith, Option-cases, true, map, ℕ, zero, suc, Bool, not, ◌==◌, [],
  ◌∷◌, Option, none, some, Text, is_empty, trim_space, same, text_order, length, all, Result, ok,
  err, refuse, ◌>>◌, ◌≡◌, ◌&&◌,
}
use stacks.Encodings.Hex.{
  decode_string-eq-some, decode_string-encode_to_string, lower_digit, encode_to_string,
  decode_string, is_byte,
}
use stacks.Timepoint.{Time, is_zero, normalize}

abbrev pub ContentDigest : Type 0
ContentDigest = Text

abbrev zeros : ℕ → Text
zeros zero = []
zeros (suc n) = 0 ∷ zeros n

-- `ContentDigest{}`
abbrev pub zero_digest : ContentDigest
zero_digest = zeros 32

-- The values of the array type: 32 bytes.
abbrev pub is_digest : Text → Bool
is_digest digest = length digest == 32 && all is_byte digest

-- `sha256.Sum256`, a parameter.
unfoldable pub digest_content : (Text → Text) → Text → ContentDigest
digest_content sha256 content = sha256 content

unfoldable pub sized_digest : Option Text → Result ContentDigest
sized_digest none = err "content digest must be a hexadecimal SHA-256 value"
sized_digest (some decoded) = do
  refuse (not (length decoded == 32)) "content digest must be a hexadecimal SHA-256 value"
  ok decoded

unfoldable pub parse_content_digest : Text → Result ContentDigest
parse_content_digest value = sized_digest (decode_string value)

-- `ContentDigest.String`
unfoldable pub digest_string : ContentDigest → Text
digest_string digest = encode_to_string digest

pub record SourceReference : Type 0 where
  pub provider : Text
  pub document_id : Text
  pub version : Text
  pub locator : Text

-- `EvidenceInput`, and `Evidence` with the same fields.
pub record Evidence : Type 0 where
  pub id : Text
  pub source : SourceReference
  pub digest : ContentDigest
  pub recorded_at : Time

unfoldable pub new_evidence : Evidence → Result Evidence
new_evidence input = do
  let id = trim_space input.id
  refuse (is_empty id) "evidence ID is required"
  refuse (is_empty (trim_space input.source.provider)) "source provider is required"
  refuse (is_empty (trim_space input.source.document_id)) "source document ID is required"
  refuse (is_zero input.recorded_at) "evidence recorded time is required"
  refuse (same input.digest zero_digest) "evidence content digest is required"
  let source : SourceReference = record {
    provider = trim_space input.source.provider;
    document_id = trim_space input.source.document_id;
    version = trim_space input.source.version;
    locator = trim_space input.source.locator;
  }
  ok (record {
    id = id;
    source = source;
    digest = input.digest;
    recorded_at = normalize input.recorded_at;
  })

-- A digest is what its printed form parses to.
pub parse_content_digest-digest_string :
    (digest : ContentDigest)
    → is_digest digest ≡ true
    → parse_content_digest (digest_string digest) ≡ ok digest
unfolding parse_content_digest digest_string sized_digest
parse_content_digest-digest_string digest h =
    rw (decode_string-encode_to_string digest (ground arith)) (ground arith)

-- A text that is parsed is the printed form of the digest, in lower or upper case, and the digest
-- has 32 bytes.
pub parse_content_digest-eq-ok :
    (value : Text) {digest : ContentDigest}
    → parse_content_digest value ≡ ok digest
    → (digest_string digest ≡ map lower_digit value) × (is_digest digest ≡ true)
unfolding parse_content_digest digest_string sized_digest
parse_content_digest-eq-ok value {digest} h = elim (Option-cases (decode_string value)) [
  | inl e ↦ let none_decoded : sized_digest none ≡ ok digest = rw e at h in cc
  | inr (decoded, e) ↦
      let sized : sized_digest (some decoded) ≡ ok digest = rw e at h in
      let (long, same_digest) = refuse->>-eq-ok (not (length decoded == 32)) _ _ sized in
      let this : decoded ≡ digest = cc in
      let (printed, bytes) = decode_string-eq-some value (rw this at e) in
      (printed, ground (arith, ap (λ d. length d) this))
]
