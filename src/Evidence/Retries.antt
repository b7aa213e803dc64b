-- ===== src/Evidence/Retries.antt =====
-- What `NewSourceRevisionObservation` accepts and returns (core/evidence/revision.go).
use stacks.Base.{
  ◌≡◌, refl, Bool, false, ◌||◌, Text, same, text_order, is_empty, trim_space, ok, refuse->>-eq-ok,
}
use stacks.Timepoint.{Time, is_zero, normalize}
use stacks.Evidence.Contents.{zero_digest}
use stacks.Evidence.Revisions.{
  SourceRevisionInput, SourceRevision, new_source_revision, revision_id, revision_digest,
}

-- The tests that refuse: a document or its version is not named.
abbrev unnamed : SourceRevisionInput → Bool
unnamed input =
    is_empty (trim_space input.provider) || is_empty (trim_space input.provider_document_id)

abbrev unversioned : SourceRevisionInput → Bool
unversioned input =
    same input.document_digest zero_digest
    || is_empty (trim_space input.document_digest_version)
    || is_empty (trim_space input.provider_version)

-- The fields of an observation at a time.
abbrev pub revised_content : SourceRevisionInput → Time → SourceRevisionInput
revised_content input recorded = record {
  provider = trim_space input.provider;
  provider_document_id = trim_space input.provider_document_id;
  document_digest_version = trim_space input.document_digest_version;
  document_digest = input.document_digest;
  provider_version = trim_space input.provider_version;
  provider_revision = trim_space input.provider_revision;
  first_recorded_at = normalize recorded;
}

abbrev pub revised : (Text → Text) → SourceRevisionInput → Time → SourceRevision
revised sha256 input recorded = record {
  id = revision_id sha256 (revised_content input recorded);
  digest = revision_digest sha256 (revised_content input recorded);
  content = revised_content input recorded;
}

new_source_revision_accepts :
    (sha256 : Text → Text) (input : SourceRevisionInput)
    → unnamed input ≡ false
    → unversioned input ≡ false
    → is_zero input.first_recorded_at ≡ false
    → new_source_revision sha256 input ≡ ok (revised sha256 input input.first_recorded_at)
unfolding new_source_revision
new_source_revision_accepts sha256 input named versioned t = rw (named, versioned, t) refl

new_source_revision-eq-ok :
    (sha256 : Text → Text) (input : SourceRevisionInput) (value : SourceRevision)
    → new_source_revision sha256 input ≡ ok value
    → (value ≡ revised sha256 input input.first_recorded_at)
      × (unnamed input ≡ false)
      × (unversioned input ≡ false)
unfolding new_source_revision
new_source_revision-eq-ok sha256 input value h =
    let (named, h1) = refuse->>-eq-ok (unnamed input) _ _ h in
    let (versioned, h2) = refuse->>-eq-ok (unversioned input) _ _ h1 in
    let (recorded, h3) = refuse->>-eq-ok (is_zero input.first_recorded_at) _ _ h2 in
    let built = new_source_revision_accepts sha256 input named versioned recorded in
    (cc, named, versioned)

-- A revision that was accepted is accepted when it is observed again at another time that is not
-- the zero time: with the same identifier, and with the digest of that time.
pub new_source_revision_again :
    (sha256 : Text → Text) (input : SourceRevisionInput) (value : SourceRevision) (again : Time)
    → new_source_revision sha256 input ≡ ok value
    → is_zero again ≡ false
    → new_source_revision sha256 (record input { first_recorded_at = again })
      ≡ ok (record {
        id = value.id;
        digest =
            revision_digest sha256 (record value.content { first_recorded_at = normalize again });
        content = record value.content { first_recorded_at = normalize again };
      })
unfolding revision_id
new_source_revision_again sha256 input value again h t =
    let (built, named, versioned) = new_source_revision-eq-ok sha256 input value h in
    rw built (
      new_source_revision_accepts sha256 (record input { first_recorded_at = again }) named
        versioned t)
