-- ===== src/Query/Renormalized.antt =====
-- What `normalizeEntityIDs` and `normalizePredicates` accept and return
-- (internal/query/contract.go).
use stacks.Base.{
  ◌≡◌, refl, sym, ap, ◌∙◌, Bool, true, false, not, ◌&&◌, List, [], ◌∷◌, Text, text_order, member,
  add, is_empty, trim_space, trim_space-trim_space, ok, >>=-eq-ok, ◌>>=◌, arith, length, sort_on,
  refuse->>-eq-ok, wrap-eq-ok, ◌==◌,
}
use stacks.Encodings.Ints.{ℤ, pos, less}
use stacks.Observation.Claims.{new_predicate}
use stacks.Temporal.Plans.Accepted.{are_distinct}
use stacks.Query.Requests.{
  collect_entity_ids, normalize_entity_ids, collect_predicates, normalize_predicates,
}
use stacks.Query.Trimming.{loop_accepts, loop-eq-ok}
use stacks.Query.Canonical.{canonical, length-canonical, canonical_distinct, canonical-canonical}

entity_ids_go :
    (x : Text) (rest seen : List Text)
    → is_empty (trim_space x) ≡ false
    → member (trim_space x) seen ≡ false
    → collect_entity_ids (x ∷ rest) seen
      ≡ (collect_entity_ids rest (add (trim_space x) seen) >>= λ values. ok (trim_space x ∷ values))
unfolding collect_entity_ids
entity_ids_go x rest seen full new = rw (full, new) refl

entity_ids_went :
    (x : Text) (rest seen values : List Text)
    → collect_entity_ids (x ∷ rest) seen ≡ ok values
    → (is_empty (trim_space x) ≡ false) × (member (trim_space x) seen ≡ false)
unfolding collect_entity_ids
entity_ids_went x rest seen values h =
    let (full, h1) = refuse->>-eq-ok (is_empty (trim_space x)) _ _ h in
    let (new, h2) = refuse->>-eq-ok (member (trim_space x) seen) _ _ h1 in (full, new)

entity_ids_stop : (seen : List Text) → collect_entity_ids [] seen ≡ ok []
unfolding collect_entity_ids
entity_ids_stop seen = refl

predicates_go :
    (x : Text) (rest seen : List Text)
    → is_empty (trim_space x) ≡ false
    → member (trim_space x) seen ≡ false
    → collect_predicates (x ∷ rest) seen
      ≡ (collect_predicates rest (add (trim_space x) seen) >>= λ values. ok (trim_space x ∷ values))
unfolding collect_predicates new_predicate
predicates_go x rest seen full new = rw (trim_space-trim_space x, full, new) refl

predicates_went :
    (x : Text) (rest seen values : List Text)
    → collect_predicates (x ∷ rest) seen ≡ ok values
    → (is_empty (trim_space x) ≡ false) × (member (trim_space x) seen ≡ false)
unfolding collect_predicates new_predicate
predicates_went x rest seen values h =
    let (p, named, h1) = >>=-eq-ok _ _ h in
    let checked = wrap-eq-ok _ (new_predicate (trim_space x)) named in
    let (full, h2) = refuse->>-eq-ok (is_empty (trim_space (trim_space x))) _ _ checked in
    let (new, h3) = refuse->>-eq-ok (member (trim_space x) seen) _ _ h1 in
    (rw (trim_space-trim_space x) at full, new)

predicates_stop : (seen : List Text) → collect_predicates [] seen ≡ ok []
unfolding collect_predicates
predicates_stop seen = refl

-- The entity identifiers that a request may have under a limit.
abbrev pub entity_ids_fit : List Text → ℤ → Bool
entity_ids_fit values maximum =
    not (length values == 0) && (not (less maximum (pos (length values))) && are_distinct values [])

pub normalize_entity_ids-eq-ok :
    (values : List Text) (maximum : ℤ) (result : List Text)
    → normalize_entity_ids values maximum ≡ ok result
    → (result ≡ canonical values) × (entity_ids_fit values maximum ≡ true)
unfolding normalize_entity_ids
normalize_entity_ids-eq-ok values maximum result h =
    let (full, h1) = refuse->>-eq-ok (length values == 0) _ _ h in
    let (few, h2) = refuse->>-eq-ok (less maximum (pos (length values))) _ _ h1 in
    let (vs, run, done) = >>=-eq-ok (collect_entity_ids values []) _ h2 in
    let (trimmed, distinct) =
      loop-eq-ok collect_entity_ids entity_ids_stop entity_ids_go entity_ids_went values [] vs
        run in
    let sorted : sort_on (λ id. id) vs ≡ result = cc in
    (sym sorted ∙ ap (sort_on (λ id. id)) trimmed, rw (full, few, distinct) refl)

pub normalize_entity_ids_accepts :
    (values : List Text) (maximum : ℤ)
    → entity_ids_fit values maximum ≡ true
    → normalize_entity_ids values maximum ≡ ok (canonical values)
unfolding normalize_entity_ids
normalize_entity_ids_accepts values maximum h =
    let (full, few, distinct) =
      parts (length values == 0) (less maximum (pos (length values))) _ h in
    rw
      (
        full,
        few,
        loop_accepts collect_entity_ids entity_ids_stop entity_ids_go entity_ids_went values []
            distinct,
      )
      refl
  where
    parts : (a b c : Bool) → (not a && (not b && c)) ≡ true → (a ≡ false) × (b ≡ false) × (c ≡ true)
    parts a b c h = (ground arith, ground arith, ground arith)

-- The predicates that a request may have under a limit.
abbrev pub predicates_fit : List Text → ℤ → Bool
predicates_fit values maximum = not (less maximum (pos (length values))) && are_distinct values []

pub normalize_predicates-eq-ok :
    (values : List Text) (maximum : ℤ) (result : List Text)
    → normalize_predicates values maximum ≡ ok result
    → (result ≡ canonical values) × (predicates_fit values maximum ≡ true)
unfolding normalize_predicates
normalize_predicates-eq-ok values maximum result h =
    let (few, h1) = refuse->>-eq-ok (less maximum (pos (length values))) _ _ h in
    let (vs, run, done) = >>=-eq-ok (collect_predicates values []) _ h1 in
    let (trimmed, distinct) =
      loop-eq-ok collect_predicates predicates_stop predicates_go predicates_went values [] vs
        run in
    let sorted : sort_on (λ p. p) vs ≡ result = cc in
    (sym sorted ∙ ap (sort_on (λ p. p)) trimmed, rw (few, distinct) refl)

pub normalize_predicates_accepts :
    (values : List Text) (maximum : ℤ)
    → predicates_fit values maximum ≡ true
    → normalize_predicates values maximum ≡ ok (canonical values)
unfolding normalize_predicates
normalize_predicates_accepts values maximum h =
    let (few, distinct) = parts (less maximum (pos (length values))) _ h in
    rw
      (
        few,
        loop_accepts collect_predicates predicates_stop predicates_go predicates_went values []
            distinct,
      )
      refl
  where
    parts : (a b : Bool) → (not a && b) ≡ true → (a ≡ false) × (b ≡ true)
    parts a b h = (ground arith, ground arith)

-- What fits still fits in its normal form, under every maximum that is large enough, and the normal
-- form is its own.
pub entity_ids_again :
    (values : List Text) (maximum other : ℤ)
    → entity_ids_fit values maximum ≡ true
    → less other (pos (length (canonical values))) ≡ false
    → normalize_entity_ids (canonical values) other ≡ ok (canonical values)
entity_ids_again values maximum other h few =
    let distinct : are_distinct values [] ≡ true = ground arith in
    let full : (length (canonical values) == 0) ≡ false =
      rw (length-canonical values) (ground arith) in
    let fits : entity_ids_fit (canonical values) other ≡ true =
      rw (few, full, canonical_distinct values distinct) refl in
    normalize_entity_ids_accepts (canonical values) other fits
    ∙ ap ok (canonical-canonical values distinct)

pub predicates_again :
    (values : List Text) (maximum other : ℤ)
    → predicates_fit values maximum ≡ true
    → less other (pos (length (canonical values))) ≡ false
    → normalize_predicates (canonical values) other ≡ ok (canonical values)
predicates_again values maximum other h few =
    let distinct : are_distinct values [] ≡ true = ground arith in
    let fits : predicates_fit (canonical values) other ≡ true =
      rw (few, canonical_distinct values distinct) refl in
    normalize_predicates_accepts (canonical values) other fits
    ∙ ap ok (canonical-canonical values distinct)
