-- ===== src/Observation/Links.antt =====
-- The evidence links of an observation: what `normalizeEvidenceLinks` accepts and returns
-- (core/observation/observation.go).
use stacks.Base.{
  ◌≡◌, refl, sym, ap, ◌∙◌, Bool, true, false, not, ◌&&◌, List, [], ◌∷◌, map, Text, text_order,
  pair_order, member, add, all, is_empty, trim_space, ok, >>=-eq-ok, arith, sort_on, sort_on-Permᴰ,
  refuse->>-eq-ok,
}
use mathlib.Core.List.{Permᴰ}
use mathlib.Core.List.Perm
use stacks.Base.Distinct.{
  all_new, all_new_agree, add_agrees, all_new-Nodup, Nodup-all_new, Permᴰ-map,
}
use stacks.Observation.Digests.{EvidenceLink}
use stacks.Observation.Claims.{link_key, collect_links, normalize_evidence_links, role_valid}

abbrev pub trimmed_link : EvidenceLink → EvidenceLink
trimmed_link input = record input { evidence_id = trim_space input.evidence_id }

abbrev pub link_fits : EvidenceLink → Bool
link_fits input = not (is_empty (trim_space input.evidence_id)) && role_valid input.role

-- What the loop asks of the links: none is blank, the roles are known and no pair repeats.
abbrev pub links_fit : List EvidenceLink → List (Text × Text) → Bool
links_fit links seen = all link_fits links && all_new (map link_key (map trimmed_link links)) seen

collect_links-eq-ok :
    (inputs : List EvidenceLink) (seen : List (Text × Text)) {links : List EvidenceLink}
    → collect_links inputs seen ≡ ok links
    → (links ≡ map trimmed_link inputs) × (links_fit inputs seen ≡ true)
unfolding collect_links all
collect_links-eq-ok [] seen h = (ground arith, refl)
collect_links-eq-ok (input ∷ rest) seen {links} h =
    let key = link_key (trimmed_link input) in
    let (full, h1) = refuse->>-eq-ok (is_empty (trim_space input.evidence_id)) _ _ h in
    let (valid, h2) = refuse->>-eq-ok (not (role_valid input.role)) _ _ h1 in
    let (new, h3) = refuse->>-eq-ok (member key seen) _ _ h2 in
    let (ls, run, done) = >>=-eq-ok (collect_links rest (add key seen)) _ h3 in
    let (trimmed, fits) = collect_links-eq-ok rest (add key seen) run in
    let here : (trimmed_link input ∷ ls) ≡ links = cc in
    (
      sym here ∙ ap (λ l. trimmed_link input ∷ l) trimmed,
      joined (is_empty (trim_space input.evidence_id)) (role_valid input.role) _ (member key seen) _
          full valid new
          (rw
            (← all_new_agree (map link_key (map trimmed_link rest)) (add key seen) (key ∷ seen)
              (add_agrees key seen))
            fits),
    )
  where
    joined :
        (a b c d e : Bool)
        → a ≡ false
        → not b ≡ false
        → d ≡ false
        → (c && e) ≡ true
        → (((not a && b) && c) && (not d && e)) ≡ true
    joined a b c d e p q r s = ground arith

collect_links_accepts :
    (inputs : List EvidenceLink) (seen : List (Text × Text))
    → links_fit inputs seen ≡ true
    → collect_links inputs seen ≡ ok (map trimmed_link inputs)
unfolding collect_links all
collect_links_accepts [] seen h = refl
collect_links_accepts (input ∷ rest) seen h =
    let key = link_key (trimmed_link input) in
    let agree =
      all_new_agree (map link_key (map trimmed_link rest)) (add key seen) (key ∷ seen)
        (add_agrees key seen) in
    let (full, valid, new, fits) =
      parts (is_empty (trim_space input.evidence_id)) (role_valid input.role) _ (member key seen) _
        h in
    rw (full, valid, new, collect_links_accepts rest (add key seen) (rw agree fits))
  where
    parts :
        (a b c d e : Bool)
        → (((not a && b) && c) && (not d && e)) ≡ true
        → (a ≡ false) × (b ≡ true) × (d ≡ false) × ((c && e) ≡ true)
    parts a b c d e h = (ground arith, ground arith, ground arith, ground arith)

abbrev pub has_links : List EvidenceLink → Bool
has_links [] = false
has_links (x ∷ xs) = true

-- The links that normalization returns.
unfoldable pub normalized : List EvidenceLink → List EvidenceLink
normalized inputs = sort_on link_key (map trimmed_link inputs)

pub normalize_evidence_links-eq-ok :
    (inputs : List EvidenceLink) {links : List EvidenceLink}
    → normalize_evidence_links inputs ≡ ok links
    → (links ≡ normalized inputs) × ((has_links inputs && links_fit inputs []) ≡ true)
unfolding normalize_evidence_links normalized
normalize_evidence_links-eq-ok [] h = cc
normalize_evidence_links-eq-ok (input ∷ rest) {links} h =
    let (ls, run, done) = >>=-eq-ok (collect_links (input ∷ rest) []) _ h in
    let (trimmed, fits) = collect_links-eq-ok (input ∷ rest) [] run in
    let here : sort_on link_key ls ≡ links = cc in (sym here ∙ ap (sort_on link_key) trimmed, fits)

pub normalize_evidence_links_accepts :
    (inputs : List EvidenceLink)
    → (has_links inputs && links_fit inputs []) ≡ true
    → normalize_evidence_links inputs ≡ ok (normalized inputs)
unfolding normalize_evidence_links normalized
normalize_evidence_links_accepts [] h = cc
normalize_evidence_links_accepts (input ∷ rest) h = rw (collect_links_accepts (input ∷ rest) [] h)

all_Permᴰ :
    {xs ys : List EvidenceLink} → Permᴰ xs ys → all link_fits xs ≡ true → all link_fits ys ≡ true
unfolding all
all_Permᴰ Permᴰ.nil h = h
all_Permᴰ (Permᴰ.cons {a = a} e p) h = ground (arith, ap link_fits e, all_Permᴰ p)
all_Permᴰ (Permᴰ.swap {a = a} {b = b} e f) h = ground (arith, ap link_fits e, ap link_fits f)
all_Permᴰ (Permᴰ.trans p q) h = all_Permᴰ q (all_Permᴰ p h)

has_links_Permᴰ : {xs ys : List EvidenceLink} → Permᴰ xs ys → has_links xs ≡ has_links ys
has_links_Permᴰ Permᴰ.nil = refl
has_links_Permᴰ (Permᴰ.cons e p) = refl
has_links_Permᴰ (Permᴰ.swap e f) = refl
has_links_Permᴰ (Permᴰ.trans p q) = has_links_Permᴰ p ∙ has_links_Permᴰ q

-- Every order in which an input lists its links normalizes to the same links.
pub normalized_order :
    (inputs listed : List EvidenceLink)
    → Permᴰ inputs listed
    → (has_links inputs && links_fit inputs []) ≡ true
    → ((has_links listed && links_fit listed []) ≡ true) × (normalized listed ≡ normalized inputs)
unfolding normalized
normalized_order inputs listed p h =
    let trimmed = Permᴰ-map trimmed_link p in
    let distinct = all_new-Nodup (map link_key (map trimmed_link inputs)) (ground arith) in
    let again =
      Nodup-all_new (map link_key (map trimmed_link listed))
        (Perm.nodup ∣ Permᴰ-map link_key trimmed ∣₁ distinct) in
    (
      rw (← has_links_Permᴰ p, all_Permᴰ p (ground arith), again) (ground arith),
      sym (sort_on-Permᴰ link_key trimmed distinct),
    )
