-- ===== src/Identity/Matches.antt =====
-- When `Resolver.Resolve` decides by itself (core/identity/resolver.go).
use stacks.Identity.Values.{Candidate, Alias, EntitySnapshot, Mention}
use stacks.Base.{
  ◌≡◌, refl, sym, ap, ◌∙◌, Bool, true, false, not, ◌&&◌, ◌||◌, List, [], ◌∷◌, ◌++◌, Text, same,
  text_order, member, add, any, arith, sort_on, place, if◌then◌else◌, same_refl, same→eq,
  Bool-cases, inl, inr, member-add,
}
use mathlib.Core.List.{Permᴰ}
use stacks.Base.Distinct.{all_new}
use stacks.Base.Entries.{member-sort_on_self}
use stacks.Identity.Names.{TextRules, normalize_name}
use stacks.Identity.Resolver.{
  skipped, alias_matches, add_matches, collect_matches, matching_accepted_emails, mention_email,
  resolution_of, resolve, rank_candidates,
}

add-present : (k : Text) (xs : List Text) → member k xs ≡ true → add k xs ≡ xs
unfolding add
add-present k xs h = rw h refl

add-add : (k : Text) (xs : List Text) → add k (add k xs) ≡ add k xs
add-add k xs = add-present k (add k xs) (ground (arith, member-add k k xs, same_refl k))

all_new-append :
    (k : Text) (xs seen : List Text)
    → all_new (xs ++ k ∷ []) seen ≡ (all_new xs seen && not (member k xs || member k seen))
unfolding member
all_new-append k [] seen = ground arith
all_new-append k (x ∷ xs) seen = ground (arith, all_new-append k xs (x ∷ seen))

member-nil : (k : Text) → member k [] ≡ false
unfolding member
member-nil k = refl

all_new-add : (k : Text) (xs : List Text) → all_new xs [] ≡ true → all_new (add k xs) [] ≡ true
unfolding add
all_new-add k xs h = elim (Bool-cases (member k xs)) [
  | inl e ↦ rw e h
  | inr e ↦ rw e (ground (arith, all_new-append k xs [], member-nil k))
]

-- Elements that are all one, and apart from each other, are one element.
single :
    (id : Text) (xs : List Text)
    → all_new xs [] ≡ true
    → ((j : Text) → member j xs ≡ same id j)
    → xs ≡ id ∷ []
unfolding member
single id [] h e = absurd (ground (arith, e id, same_refl id))
single id (x ∷ []) h e =
    let this : x ≡ id = same→eq x id (ground (arith, e id, same_refl id)) in rw this refl
single id (x ∷ y ∷ xs) h e =
    let first : id ≡ x = same→eq id x (ground (arith, e x, same_refl x)) in
    let second : id ≡ y = same→eq id y (ground (arith, e y, same_refl y)) in
    let equal : same x y ≡ true = rw (← first, second) (same_refl y) in absurd (ground arith)

any-Permᴰ :
    (p : EntitySnapshot → Bool) {xs ys : List EntitySnapshot} → Permᴰ xs ys → any p xs ≡ any p ys
unfolding any
any-Permᴰ p Permᴰ.nil = refl
any-Permᴰ p (Permᴰ.cons e q) = rw (e, any-Permᴰ p q) refl
any-Permᴰ p (Permᴰ.swap e h) = rw (e, h) (ground arith)
any-Permᴰ p (Permᴰ.trans q r) = any-Permᴰ p q ∙ any-Permᴰ p r

resolution_of-auto :
    (ids : List Text) (candidates : List Candidate)
    → (resolution_of ids candidates).auto_resolved ≡ true
    → ids ≡ (resolution_of ids candidates).entity_id ∷ []
unfolding resolution_of
resolution_of-auto [] candidates h = cc
resolution_of-auto (id ∷ []) candidates h = refl
resolution_of-auto (id ∷ other ∷ ids) candidates h = cc

member-single : (j id : Text) → member j (id ∷ []) ≡ same id j
unfolding member
member-single j id = ground arith

module _ (rules : TextRules) where
  add_matches-any :
      (email id : Text) (aliases : List Alias) (matches : List Text)
      → add_matches rules email id aliases matches
        ≡ (if any (alias_matches rules email) aliases then add id matches else matches)
  unfolding add_matches any
  add_matches-any email id [] matches = refl
  add_matches-any email id (alias ∷ aliases) matches =
      elim (Bool-cases (alias_matches rules email alias)) [
        | inl e ↦
            rw e (
              add_matches-any email id aliases (add id matches)
              ∙ ground (arith, add-add id matches))
        | inr e ↦ rw e (add_matches-any email id aliases matches)
      ]

  -- A person with an identifier has accepted this address.
  abbrev pub accepted_by : Text → List EntitySnapshot → Text → Bool
  accepted_by email snapshots id =
      any (λ s. not (skipped s) && (same s.id id && any (alias_matches rules email) s.aliases))
        snapshots

  member-collect_matches :
      (email : Text) (snapshots : List EntitySnapshot) (matches : List Text) (id : Text)
      → member id (collect_matches rules email snapshots matches)
        ≡ (accepted_by email snapshots id || member id matches)
  unfolding collect_matches any
  member-collect_matches email [] matches id = refl
  member-collect_matches email (s ∷ snapshots) matches id =
      let added = add_matches-any email s.id s.aliases matches in
      elim (Bool-cases (skipped s)) [
        | inl e ↦ rw e (member-collect_matches email snapshots matches id)
        | inr e ↦
            rw (e, added)
              (elim (Bool-cases (any (alias_matches rules email) s.aliases)) [
                | inl m ↦ rw m (
                    ground (
                      arith,
                      member-collect_matches email snapshots (add s.id matches) id,
                      member-add id s.id matches,
                    ))
                | inr m ↦ rw m (ground (arith, member-collect_matches email snapshots matches id))
              ])
      ]

  all_new-collect_matches :
      (email : Text) (snapshots : List EntitySnapshot) (matches : List Text)
      → all_new matches [] ≡ true
      → all_new (collect_matches rules email snapshots matches) [] ≡ true
  unfolding collect_matches
  all_new-collect_matches email [] matches h = h
  all_new-collect_matches email (s ∷ snapshots) matches h =
      all_new-collect_matches email snapshots _
        (ground (arith, add_matches-any email s.id s.aliases matches, all_new-add s.id matches h))

  -- The identifiers that match are the persons' with this address, each once.
  member-matching :
      (email : Text) (snapshots : List EntitySnapshot) (id : Text)
      → member id (matching_accepted_emails rules email snapshots) ≡ accepted_by email snapshots id
  unfolding matching_accepted_emails
  member-matching email snapshots id =
      member-sort_on_self (λ i. i) id (collect_matches rules email snapshots [])
      ∙ ground (arith, member-collect_matches email snapshots [] id, member-nil id)

  matching-single :
      (email : Text) (snapshots : List EntitySnapshot) (id : Text)
      → ((j : Text) → accepted_by email snapshots j ≡ same id j)
      → matching_accepted_emails rules email snapshots ≡ id ∷ []
  unfolding matching_accepted_emails sort_on place
  matching-single email snapshots id h =
      let collected : collect_matches rules email snapshots [] ≡ id ∷ [] =
        single id (collect_matches rules email snapshots [])
          (all_new-collect_matches email snapshots [] refl)
          (λ j. ground (arith, member-collect_matches email snapshots [] j, member-nil j, h j)) in
      ap (sort_on (λ i. i)) collected

  -- Where a mention is resolved automatically, the persons with its address are those with the
  -- identifier of the result, whatever identifier is asked for.
  pub resolve-auto :
      (mention : Mention) (snapshots : List EntitySnapshot) (j : Text)
      → (resolve rules mention snapshots).auto_resolved ≡ true
      → accepted_by (mention_email rules mention) snapshots j
        ≡ same (resolve rules mention snapshots).entity_id j
  unfolding resolve
  resolve-auto mention snapshots j h =
      let ids = matching_accepted_emails rules (mention_email rules mention) snapshots in
      let one =
        resolution_of-auto ids (rank_candidates rules (normalize_name rules mention.name) snapshots)
          h in
      sym (member-matching (mention_email rules mention) snapshots j)
      ∙ ap (member j) one
      ∙ member-single j _

  -- Where exactly one identifier is that of a person with the mention's address, the mention is
  -- resolved to it, without candidates.
  pub resolve_unique :
      (mention : Mention) (snapshots : List EntitySnapshot) (id : Text)
      → ((j : Text) → accepted_by (mention_email rules mention) snapshots j ≡ same id j)
      → resolve rules mention snapshots
        ≡ record { entity_id = id; auto_resolved = true; candidates = [] }
  unfolding resolve resolution_of
  resolve_unique mention snapshots id h =
      rw (matching-single (mention_email rules mention) snapshots id h) refl

  -- An automatic resolution does not depend on the order of the snapshots.
  pub resolve-auto_order :
      (mention : Mention) (snapshots listed : List EntitySnapshot)
      → (resolve rules mention snapshots).auto_resolved ≡ true
      → Permᴰ snapshots listed
      → resolve rules mention listed ≡ resolve rules mention snapshots
  resolve-auto_order mention snapshots listed h p =
      let id : Text = (resolve rules mention snapshots).entity_id in
      let here = resolve_unique mention snapshots id (λ j. resolve-auto mention snapshots j h) in
      let there = resolve_unique mention listed id (λ j.
        sym (
          any-Permᴰ
            (λ s.
              not (skipped s)
              && (same s.id j && any (alias_matches rules (mention_email rules mention)) s.aliases))
            p)
        ∙ resolve-auto mention snapshots j h) in
      there ∙ sym here
