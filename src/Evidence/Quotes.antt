-- ===== src/Evidence/Quotes.antt =====
-- What `NewEvidenceSpan` accepts and returns (core/evidence/document.go).
use stacks.Base.{
  Result, same→eq, same_refl, refuse-eq-ok, ℕ, ◌+◌, ◌-◌, ◌≤◌, ◌<◌, ◌≡◌, refl, sym, ap, ◌∙◌, true,
  false, not, ◌||◌, [], ◌∷◌, ◌++◌, Text, same, text_order, is_empty, trim_space, ok, >>=-eq-ok,
  arith, refuse->>-eq-ok, length, length-append, Option, none, some, ltb, leb,
}
use mathlib.Core.Path.{subst}
use stacks.Timepoint.{is_zero, normalize}
use stacks.Encodings.Ints.{ℤ, pos, negsuc}
use stacks.Encodings.Boundaries.{starts, valid_string-append}
use stacks.Encodings.Utf8.{valid_string}
use stacks.Evidence.Sections.{Section}
use stacks.Evidence.Documents.{section_by_id}
use stacks.Evidence.Slices.{
  take-drop, length-take, take-append, drop-append, boundary-starts, drop-drop, slice-rest,
  length-slice, is_empty-length, starts-append,
}
use stacks.Evidence.Spans.{
  EvidenceSpanInput, EvidenceSpan, take, drop, slice, utf8_byte_boundary, check_quote,
  required_section, new_evidence_span, source_span_id,
}

-- What the tests of the offsets and of the quote find.
abbrev Cut : Text → ℤ → ℤ → Text → ℕ → ℕ → Type 0
Cut text start end quote m n =
    (start ≡ pos m)
    × (end ≡ pos n)
    × (m < n)
    × (n ≤ length text)
    × (utf8_byte_boundary text m ≡ true)
    × (utf8_byte_boundary text n ≡ true)
    × (slice text m n ≡ quote)

check_quote-eq-ok :
    (text : Text) (start end : ℤ) (quote : Text)
    → check_quote text start end quote ≡ ok tt
    → (m : ℕ) × (n : ℕ) × Cut text start end quote m n
unfolding check_quote
check_quote-eq-ok text (negsuc m) end quote h = cc
check_quote-eq-ok text (pos m) (negsuc n) quote h = cc
check_quote-eq-ok text (pos m) (pos n) quote h =
    let (inside, h1) = refuse->>-eq-ok (leb n m || ltb (length text) n) _ _ h in
    let (aligned, h2) =
      refuse->>-eq-ok (not (utf8_byte_boundary text m) || not (utf8_byte_boundary text n)) _ _ h1 in
    let exact = refuse-eq-ok (not (same (slice text m n) quote)) _ h2 in
    (
      m,
      n,
      (
        refl,
        refl,
        ground arith,
        ground arith,
        ground arith,
        ground arith,
        same→eq (slice text m n) quote (ground arith),
      ),
    )

check_quote_accepts :
    (text : Text) (m n : ℕ) (quote : Text)
    → Cut text (pos m) (pos n) quote m n
    → check_quote text (pos m) (pos n) quote ≡ ok tt
unfolding check_quote
check_quote_accepts text m n quote (start, end, ordered, inside, first, last, exact) =
    rw exact (ground (arith, same_refl quote))

-- A quote between two parts of a text, at the two offsets.
pub record Quoted (text : Text) (start end : ℤ) (quote : Text) : Type 0 where
  pub front : Text
  pub back : Text
  pub between : text ≡ front ++ (quote ++ back)
  pub starts_at : start ≡ pos (length front)
  pub ends_at : end ≡ pos (length front + length quote)
  pub some_text : 0 < length quote
  pub front_boundary : (is_empty front || starts quote) ≡ true
  pub back_boundary : starts back ≡ true

check_quote-Quoted :
    (text : Text) (start end : ℤ) (quote : Text)
    → check_quote text start end quote ≡ ok tt
    → Quoted text start end quote
check_quote-Quoted text start end quote h =
    let (m, n, (first, last, ordered, inside, aligned, aligned', exact)) =
      check_quote-eq-ok text start end quote h in
    let fronts = length-take m text (omega arith) in
    let rest : drop m text ≡ quote ++ drop n text =
      rw exact at (slice-rest text m n (omega arith)) in
    let long : length quote ≡ n - m = sym (ap length exact) ∙ length-slice text m n inside in
    let first_starts = ap starts rest ∙ starts-append quote (drop n text) (omega (arith, long)) in
    record {
      front = take m text;
      back = drop n text;
      between = sym (take-drop m text) ∙ ap (λ rest. take m text ++ rest) rest;
      starts_at = rw fronts first;
      ends_at = last ∙ ap pos (omega arith);
      some_text = omega arith;
      front_boundary = ground (
        arith,
        boundary-starts m text (omega arith),
        first_starts,
        is_empty-length (take m text),
        fronts,
      );
      back_boundary = ground (arith, boundary-starts n text inside);
    }

Quoted-check_quote :
    (text : Text) (start end : ℤ) (quote : Text)
    → Quoted text start end quote
    → check_quote text start end quote ≡ ok tt
Quoted-check_quote text start end quote q =
    let m : ℕ = length q.front in
    let n : ℕ = length q.front + length quote in
    let long : length text ≡ n + length q.back = omega (
      arith,
      ap length q.between,
      length-append q.front (quote ++ q.back),
      length-append quote q.back,
    ) in
    let from : drop m text ≡ quote ++ q.back =
      ap (drop m) q.between ∙ drop-append q.front (quote ++ q.back) in
    let behind : drop n text ≡ q.back =
      sym (drop-drop (length quote) m n text refl)
      ∙ ap (drop (length quote)) from
      ∙ drop-append quote q.back in
    let exact : slice text m n ≡ quote =
      ap (take (n - m)) from
      ∙ ap (λ k. take k (quote ++ q.back)) (omega arith)
      ∙ take-append quote q.back in
    let checked = check_quote_accepts text m n quote (
      refl,
      refl,
      omega (arith, q.some_text),
      omega (arith, long),
      ground (
        arith,
        boundary-starts m text (omega (arith, long)),
        ap starts from,
        starts-append quote q.back q.some_text,
        is_empty-length q.front,
        q.front_boundary,
      ),
      ground
          (arith, boundary-starts n text (omega (arith, long)), ap starts behind, q.back_boundary),
      exact,
    ) in
    rw (q.starts_at, q.ends_at) checked

-- The citation of an input.
abbrev pub spanned : (Text → Text) → EvidenceSpanInput → EvidenceSpan
spanned sha256 input = record {
  provider = input.document.provider;
  provider_document_id = input.document.provider_document_id;
  document_digest = input.document.digest;
  id =
      source_span_id sha256 input.document (trim_space input.section_id) input.start_offset
        input.end_offset;
  locator = input.document.locator;
  section_id = trim_space input.section_id;
  start_offset = input.start_offset;
  end_offset = input.end_offset;
  text = input.quote;
  recorded_at = normalize input.recorded_at;
}

required_section-eq-ok :
    (found : Option Section) {section : Section}
    → required_section found ≡ ok section
    → found ≡ some section
unfolding required_section
required_section-eq-ok none h = cc
required_section-eq-ok (some s) h = cc

accepted :
    (sha256 : Text → Text) (input : EvidenceSpanInput) (span : EvidenceSpan)
    → new_evidence_span sha256 input ≡ ok span
    → (section : Section) × (section_by_id (trim_space input.section_id) input.document.sections
        ≡ some section)
      × (spanned sha256 input ≡ span)
      × (check_quote section.text input.start_offset input.end_offset input.quote ≡ ok tt)
unfolding new_evidence_span
accepted sha256 input span h =
    let (document, h1) = refuse->>-eq-ok _ _ _ h in
    let (recorded, h2) = refuse->>-eq-ok (is_zero input.recorded_at) _ _ h1 in
    let (named, h3) = refuse->>-eq-ok (is_empty (trim_space input.section_id)) _ _ h2 in
    let (section, s, h4) = >>=-eq-ok _ _ h3 in
    let (checked, c, h5) = >>=-eq-ok _ _ h4 in
    let built : ◌≡◌ {A = Result EvidenceSpan} (ok (spanned sha256 input)) (ok span) = h5 in
    let same_span : spanned sha256 input ≡ span = cc in
    (section, required_section-eq-ok _ s, same_span, c)

-- What is known of an accepted citation.
pub record Cites (sha256 : Text → Text) (input : EvidenceSpanInput) (span : EvidenceSpan)
    : Type 0 where
  pub section : Section
  pub found : section_by_id span.section_id input.document.sections ≡ some section
  pub quoted : Quoted section.text span.start_offset span.end_offset span.text
  pub identified :
      span.id
      ≡ source_span_id sha256 input.document span.section_id span.start_offset span.end_offset

-- A citation that is accepted names a section of the document, quotes a part of its text that is
-- not empty, from the start offset to the end offset, both where a rune may start, and has the
-- identifier of its coordinates.
pub new_evidence_span-Cites :
    (sha256 : Text → Text) (input : EvidenceSpanInput) (span : EvidenceSpan)
    → new_evidence_span sha256 input ≡ ok span
    → Cites sha256 input span
new_evidence_span-Cites sha256 input span h =
    let (section, found, built, checked) = accepted sha256 input span h in
    let cites : Cites sha256 input (spanned sha256 input) = record {
      section = section;
      found = found;
      quoted =
          check_quote-Quoted section.text input.start_offset input.end_offset input.quote checked;
      identified = refl;
    } in
    subst (Cites sha256 input) built cites

-- A citation of a document is accepted where it quotes a section in this way.
pub new_evidence_span_accepts :
    (sha256 : Text → Text) (input : EvidenceSpanInput) (section : Section)
    → is_empty input.document.provider ≡ false
    → is_empty input.document.provider_document_id ≡ false
    → is_zero input.recorded_at ≡ false
    → is_empty (trim_space input.section_id) ≡ false
    → section_by_id (trim_space input.section_id) input.document.sections ≡ some section
    → Quoted section.text input.start_offset input.end_offset input.quote
    → new_evidence_span sha256 input ≡ ok (spanned sha256 input)
unfolding new_evidence_span required_section
new_evidence_span_accepts sha256 input section provider id recorded named found quoted =
    rw
      (
        provider,
        id,
        recorded,
        named,
        found,
        Quoted-check_quote section.text input.start_offset input.end_offset input.quote quoted,
      )
      refl

valid_after :
    (front rest : Text)
    → valid_string (front ++ rest) ≡ true
    → (is_empty front || starts rest) ≡ true
    → valid_string rest ≡ true
valid_after [] rest h b = h
valid_after (c ∷ front) rest h b = (valid_string-append (c ∷ front) rest h b).1

-- A citation of a section that is valid UTF-8 is valid UTF-8.
pub new_evidence_span_valid :
    (sha256 : Text → Text) (input : EvidenceSpanInput) (span : EvidenceSpan) (section : Section)
    → section_by_id (trim_space input.section_id) input.document.sections ≡ some section
    → valid_string section.text ≡ true
    → new_evidence_span sha256 input ≡ ok span
    → valid_string span.text ≡ true
new_evidence_span_valid sha256 input span section there valid h =
    let (cited, found, built, checked) = accepted sha256 input span h in
    let q = check_quote-Quoted cited.text input.start_offset input.end_offset input.quote checked in
    let this : section ≡ cited = cc in
    let whole : valid_string (q.front ++ (input.quote ++ q.back)) ≡ true =
      ap valid_string (sym q.between ∙ ap (λ s. s.text) (sym this)) ∙ valid in
    let rest =
      valid_after q.front (input.quote ++ q.back) whole
        (ground (arith, starts-append input.quote q.back q.some_text, q.front_boundary)) in
    let (quote, back) = valid_string-append input.quote q.back rest q.back_boundary in
    subst (λ s. valid_string s.text ≡ true) built quote
