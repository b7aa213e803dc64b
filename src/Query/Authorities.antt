-- ===== src/Query/Authorities.antt =====
-- What `validateSnapshotAuthority` accepts, and how it fails (internal/query/projection.go).
use stacks.Base.{
  member-add_all, ◌↔◌, ◌≡◌, refl, sym, ap, ◌∙◌, Bool, true, false, not, ◌&&◌, List, [], ◌∷◌, ◌++◌,
  map, Text, text_order, member, add_all, find, keys, all, is_some, is_empty, trim_space, Option,
  none, some, ok, err, >>=-eq-ok, arith, refuse->>-eq-ok,
}
use mathlib.Core.List.{append-nil, append_assoc}
use stacks.Base.Anys.{found}
use stacks.Base.Distinct.{all_new, all_new_agree}
use stacks.Base.Entries.{is_some-find}
use stacks.Base.Appends.{store_new, member-keys}
use stacks.Query.Snapshots.{EntityAuthority}
use stacks.Query.Authority.{
  known_conflicts, exists_in, collect_authorities, check_known, check_entities,
  validate_snapshot_authority,
}

-- What the authorities say of each entity.
abbrev pub entries : List EntityAuthority → List (Text × Bool)
entries = map (λ a. (a.entity_id, a.known))

abbrev pub authority_ids : List EntityAuthority → List Text
authority_ids = map (λ a. a.entity_id)

-- The authorities name entities of the request, each once.
abbrev pub authorities_fit : List Text → List EntityAuthority → List Text → Bool
authorities_fit requested authorities seen =
    all (λ a. not (is_empty (trim_space a.entity_id)) && member a.entity_id requested) authorities
    && all_new (authority_ids authorities) seen

exists_in-member :
    (id : Text) (known : List (Text × Bool)) → exists_in (find id known) ≡ member id (keys known)
exists_in-member id known = same_test (find id known) ∙ is_some-find id known
  where
    same_test : (o : Option Bool) → exists_in o ≡ is_some o
    same_test none = refl
    same_test (some b) = refl

no_conflict : (o : Option Bool) (b : Bool) → exists_in o ≡ false → known_conflicts o b ≡ false
unfolding known_conflicts
no_conflict none b h = refl
no_conflict (some prior) b h = cc

collect_authorities_accepts :
    (requested : List Text) (authorities : List EntityAuthority) (known : List (Text × Bool))
    → authorities_fit requested authorities (keys known) ≡ true
    → collect_authorities requested authorities known ≡ ok (known ++ entries authorities)
unfolding collect_authorities all
collect_authorities_accepts requested [] known h = rw (append-nil known) refl
collect_authorities_accepts requested (a ∷ authorities) known h =
    let (named, wanted, new, fits) =
      parts (is_empty (trim_space a.entity_id)) (member a.entity_id requested) _
        (member a.entity_id (keys known)) _ h in
    let fresh : exists_in (find a.entity_id known) ≡ false =
      exists_in-member a.entity_id known ∙ new in
    let agree =
      all_new_agree (authority_ids authorities) (keys (known ++ (a.entity_id, a.known) ∷ []))
        (a.entity_id ∷ keys known) (λ y. member-keys a.entity_id y a.known known) in
    rw
      (
        named,
        wanted,
        no_conflict (find a.entity_id known) a.known fresh,
        fresh,
        store_new a.entity_id a.known known new,
        collect_authorities_accepts requested authorities (known ++ (a.entity_id, a.known) ∷ [])
            (rw agree fits),
      )
      (ap ok (append_assoc known ((a.entity_id, a.known) ∷ []) (entries authorities)))
  where
    parts :
        (a b c d e : Bool)
        → (((not a && b) && c) && (not d && e)) ≡ true
        → (a ≡ false) × (b ≡ true) × (d ≡ false) × ((c && e) ≡ true)
    parts a b c d e h = (ground arith, ground arith, ground arith, ground arith)

collect_authorities-eq-ok :
    (requested : List Text) (authorities : List EntityAuthority) (known result : List (Text × Bool))
    → collect_authorities requested authorities known ≡ ok result
    → authorities_fit requested authorities (keys known) ≡ true
unfolding collect_authorities all
collect_authorities-eq-ok requested [] known result h = refl
collect_authorities-eq-ok requested (a ∷ authorities) known result h =
    let (named, h1) = refuse->>-eq-ok (is_empty (trim_space a.entity_id)) _ _ h in
    let (wanted, h2) = refuse->>-eq-ok (not (member a.entity_id requested)) _ _ h1 in
    let (agreed, h3) = refuse->>-eq-ok (known_conflicts (find a.entity_id known) a.known) _ _ h2 in
    let (fresh, h4) = refuse->>-eq-ok (exists_in (find a.entity_id known)) _ _ h3 in
    let new : member a.entity_id (keys known) ≡ false =
      sym (exists_in-member a.entity_id known) ∙ fresh in
    let rest =
      collect_authorities-eq-ok requested authorities (known ++ (a.entity_id, a.known) ∷ []) result
        (rw (store_new a.entity_id a.known known new) at h4) in
    let agree =
      all_new_agree (authority_ids authorities) (keys (known ++ (a.entity_id, a.known) ∷ []))
        (a.entity_id ∷ keys known) (λ y. member-keys a.entity_id y a.known known) in
    joined (is_empty (trim_space a.entity_id)) (member a.entity_id requested) _
      (member a.entity_id (keys known)) _ named wanted new (rw agree at rest)
  where
    joined :
        (a b c d e : Bool)
        → a ≡ false
        → not b ≡ false
        → d ≡ false
        → (c && e) ≡ true
        → (((not a && b) && c) && (not d && e)) ≡ true
    joined a b c d e p q r s = ground arith

check_known-eq-ok :
    (o : Option Bool) {u : Unit {0}} → check_known o ≡ ok u → found (λ b. b) o ≡ true
check_known-eq-ok none h = cc
check_known-eq-ok (some false) h = cc
check_known-eq-ok (some true) h = refl

check_known_accepts : (o : Option Bool) → found (λ b. b) o ≡ true → check_known o ≡ ok tt
check_known_accepts none h = cc
check_known_accepts (some false) h = cc
check_known_accepts (some true) h = refl

check_known-unknown :
    (o : Option Bool)
    → is_some o ≡ true
    → found (λ b. b) o ≡ false
    → check_known o ≡ err "query entity not found"
check_known-unknown none h k = cc
check_known-unknown (some false) h k = refl
check_known-unknown (some true) h k = cc

-- Every entity is known, in these entries.
abbrev pub all_known : List Text → List (Text × Bool) → Bool
all_known ids known = all (λ id. found (λ b. b) (find id known)) ids

check_entities-eq-ok :
    (ids : List Text) (known : List (Text × Bool))
    → check_entities ids known ≡ ok tt
    → all_known ids known ≡ true
unfolding check_entities all
check_entities-eq-ok [] known h = refl
check_entities-eq-ok (id ∷ ids) known h =
    let (u, here, h1) = >>=-eq-ok (check_known (find id known)) _ h in
    let rest = check_entities-eq-ok ids known h1 in
    rw (check_known-eq-ok (find id known) here, rest) refl

check_entities_accepts :
    (ids : List Text) (known : List (Text × Bool))
    → all_known ids known ≡ true
    → check_entities ids known ≡ ok tt
unfolding check_entities all
check_entities_accepts [] known h = refl
check_entities_accepts (id ∷ ids) known h =
    ground (arith, check_known_accepts (find id known), check_entities_accepts ids known)

check_entities-unknown :
    (ids : List Text) (known : List (Text × Bool))
    → all (λ id. is_some (find id known)) ids ≡ true
    → all_known ids known ≡ false
    → check_entities ids known ≡ err "query entity not found"
unfolding check_entities all
check_entities-unknown [] known h k = cc
check_entities-unknown (id ∷ ids) known h k = ground (
  arith,
  check_known-unknown (find id known),
  check_known_accepts (find id known),
  check_entities-unknown ids known,
)

member-nil : (k : Text) → member k [] ≡ false
unfolding member
member-nil k = refl

same_requests :
    (ids : List Text) (authorities : List EntityAuthority) (seen : List Text)
    → authorities_fit (add_all ids []) authorities seen ≡ authorities_fit ids authorities seen
unfolding all
same_requests ids authorities seen =
    ap (λ b. b && all_new (authority_ids authorities) seen) (go authorities)
  where
    go :
        (xs : List EntityAuthority)
        → all
            (λ a. not (is_empty (trim_space a.entity_id)) && member a.entity_id (add_all ids []))
            xs
          ≡ all (λ a. not (is_empty (trim_space a.entity_id)) && member a.entity_id ids) xs
    go [] = refl
    go (a ∷ xs) = ground (arith, go xs, member-add_all a.entity_id ids [], member-nil a.entity_id)

-- A snapshot whose authorities are accepted names entities of the request only, each once, and
-- knows every entity of the request; and every such snapshot is accepted.
pub validate_snapshot_authority_iff :
    (entity_ids : List Text) (authorities : List EntityAuthority)
    → (validate_snapshot_authority entity_ids authorities ≡ ok tt) ↔ (
        (authorities_fit entity_ids authorities [] && all_known entity_ids (entries authorities))
        ≡ true)
unfolding validate_snapshot_authority
validate_snapshot_authority_iff entity_ids authorities = (onto, back)
  where
    onto :
        validate_snapshot_authority entity_ids authorities ≡ ok tt
        → (authorities_fit entity_ids authorities [] && all_known entity_ids (entries authorities))
          ≡ true
    onto h =
        let (known, c, h1) =
          >>=-eq-ok (collect_authorities (add_all entity_ids []) authorities []) _ h in
        let fits = collect_authorities-eq-ok (add_all entity_ids []) authorities [] known c in
        let listed = collect_authorities_accepts (add_all entity_ids []) authorities [] fits in
        let this : known ≡ entries authorities = cc in
        let all_there = check_entities-eq-ok entity_ids (entries authorities) (rw this at h1) in
        rw (sym (same_requests entity_ids authorities []) ∙ fits, all_there) refl

    back :
        (authorities_fit entity_ids authorities [] && all_known entity_ids (entries authorities))
          ≡ true
        → validate_snapshot_authority entity_ids authorities ≡ ok tt
    back h =
        let fits : authorities_fit (add_all entity_ids []) authorities [] ≡ true =
          same_requests entity_ids authorities [] ∙ ground arith in
        rw (collect_authorities_accepts (add_all entity_ids []) authorities [] fits)
          (check_entities_accepts entity_ids (entries authorities) (ground arith))

-- Where the authorities are in order and cover the entities of the request, but some entity is not
-- known, the error is that of an entity that is not found.
pub validate_snapshot_authority-unknown :
    (entity_ids : List Text) (authorities : List EntityAuthority)
    → authorities_fit entity_ids authorities [] ≡ true
    → all (λ id. is_some (find id (entries authorities))) entity_ids ≡ true
    → all_known entity_ids (entries authorities) ≡ false
    → validate_snapshot_authority entity_ids authorities ≡ err "query entity not found"
unfolding validate_snapshot_authority
validate_snapshot_authority-unknown entity_ids authorities h k l =
    let fits : authorities_fit (add_all entity_ids []) authorities [] ≡ true =
      same_requests entity_ids authorities [] ∙ h in
    rw (collect_authorities_accepts (add_all entity_ids []) authorities [] fits)
      (check_entities-unknown entity_ids (entries authorities) k l)
