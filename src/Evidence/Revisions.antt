-- ===== src/Evidence/Revisions.antt =====
-- core/evidence/revision.go: the revisions of a source that were observed.
use stacks.Base.{
  ◌||◌, List, [], ◌∷◌, ◌++◌, Text, bytes, is_empty, trim_space, same, text_order, Result, ok,
  refuse, ◌>>◌,
}
use stacks.Timepoint.{Time, is_zero, normalize}
use stacks.CanonicalHash.{Field, string, bytes as bytes_field, time, new, sum}
use stacks.Evidence.Contents.{ContentDigest, digest_string, zero_digest}

pub record SourceRevisionInput : Type 0 where
  pub provider : Text
  pub provider_document_id : Text
  pub document_digest_version : Text
  pub document_digest : ContentDigest
  pub provider_version : Text
  pub provider_revision : Text
  pub first_recorded_at : Time

-- The fields of `SourceRevisionObservation`.
pub record SourceRevision : Type 0 where
  pub id : Text
  pub digest : ContentDigest
  pub content : SourceRevisionInput
  pub open content use *

abbrev pub source_revision_digest_version : Text
source_revision_digest_version = bytes "stacks.source-revision.v1"

-- The fields that both encoders are given.
abbrev pub revision_identity : SourceRevisionInput → List Field
revision_identity value =
    string value.provider
    ∷ string value.provider_document_id
    ∷ string value.document_digest_version
    ∷ bytes_field value.document_digest
    ∷ string value.provider_version
    ∷ string value.provider_revision
    ∷ []

unfoldable pub revision_id : (Text → Text) → SourceRevisionInput → Text
revision_id sha256 value =
    digest_string (sum sha256 (new source_revision_digest_version (revision_identity value)))

unfoldable pub revision_digest : (Text → Text) → SourceRevisionInput → ContentDigest
revision_digest sha256 value = sum sha256 (
    new source_revision_digest_version
      (revision_identity value ++ time value.first_recorded_at ∷ []))

-- `NewSourceRevisionObservation`, for a SHA-256 function.
unfoldable pub new_source_revision : (Text → Text) → SourceRevisionInput → Result SourceRevision
new_source_revision sha256 input = do
  let provider = trim_space input.provider
  let provider_document_id = trim_space input.provider_document_id
  refuse (is_empty provider || is_empty provider_document_id)
      "source revision document identity is required"
  let document_digest_version = trim_space input.document_digest_version
  let provider_version = trim_space input.provider_version
  refuse
      (same input.document_digest zero_digest
        || is_empty document_digest_version
        || is_empty provider_version)
      "source revision document version is required"
  refuse (is_zero input.first_recorded_at) "source revision first recorded time is required"
  let content : SourceRevisionInput = record {
    provider = provider;
    provider_document_id = provider_document_id;
    document_digest_version = document_digest_version;
    document_digest = input.document_digest;
    provider_version = provider_version;
    provider_revision = trim_space input.provider_revision;
    first_recorded_at = normalize input.first_recorded_at;
  }
  ok (record {
    id = revision_id sha256 content;
    digest = revision_digest sha256 content;
    content = content;
  })
