-- ===== src/Identity/Orderings.antt =====
-- The order of the snapshots does not matter to the resolution of a mention
-- (core/identity/resolver.go).
use stacks.Base.{
  ◌≡◌, refl, sym, ap, ◌∙◌, true, false, ◌||◌, List, [], ◌∷◌, ◌++◌, map, Option, none, some, Text,
  text_order, pair_order, member, arith, sort_on-Permᴰ, keys, if◌then◌else◌, Bool-cases, inl, inr,
  ◌==◌,
}
use mathlib.Core.List.{Permᴰ, Nodup, append-nil, append_assoc, map-map}
use mathlib.Core.List.Permᴰ
use mathlib.Core.List.Perm
use mathlib.Mathlib.Data.List.Nodup.{of_map}
use mathlib.Core.Path.{subst, subst₂}
use stacks.Base.Distinct.{all_new, all_new_agree, all_new-Nodup, Nodup-all_new, Permᴰ-map}
use stacks.Base.Appends.{store_new, member-keys}
use stacks.Identity.Names.{TextRules, normalize_name, fields}
use stacks.Identity.Values.{EntitySnapshot, Mention, Candidate}
use stacks.Identity.Matches.{resolve-auto_order}
use stacks.Identity.Resolver.{
  skipped, snapshot_confidence, collect_candidates, rank_candidates, falling_order, rank_key,
  resolve, resolution_of,
}

all_new_fewer :
    (xs seen older : List Text)
    → ((y : Text) → member y older ≡ true → member y seen ≡ true)
    → all_new xs seen ≡ true
    → all_new xs older ≡ true
unfolding member
all_new_fewer [] seen older f h = refl
all_new_fewer (x ∷ xs) seen older f h =
    let rest =
      all_new_fewer xs (x ∷ seen) (x ∷ older) (λ y m. ground (arith, f y)) (ground arith) in
    ground (arith, f x)

-- What an optional element adds to a list.
abbrev front {ℓ} : {A : Type ℓ} → Option A → List A → List A
front none xs = xs
front (some x) xs = x ∷ xs

front-Permᴰ {ℓ} :
    {A : Type ℓ} (o : Option A) {xs ys : List A} → Permᴰ xs ys → Permᴰ (front o xs) (front o ys)
front-Permᴰ none p = p
front-Permᴰ (some x) p = Permᴰ.cons refl p

front_swap {ℓ} :
    {A : Type ℓ} (o u : Option A) (xs : List A)
    → Permᴰ (front o (front u xs)) (front u (front o xs))
front_swap none u xs = Permᴰ.refl (front u xs)
front_swap (some x) none xs = Permᴰ.refl (x ∷ xs)
front_swap (some x) (some y) xs = Permᴰ.swap refl refl

abbrev ids : List EntitySnapshot → List Text
ids = map (λ s. s.id)

module _ (rules : TextRules) (name : Text) (tokens : List Text) where
  -- The candidate of a snapshot, if it has one.
  abbrev entry_of : EntitySnapshot → Option (Text × Candidate)
  entry_of s =
      let best = snapshot_confidence rules name tokens s in
      if skipped s || best.0 == 0
      then none
      else some (s.id, record { entity_id = s.id; confidence = best.0; reason = best.1 })

  abbrev entries : List EntitySnapshot → List (Text × Candidate)
  entries [] = []
  entries (s ∷ snapshots) = front (entry_of s) (entries snapshots)

  -- With distinct identifiers the loop only appends.
  collect_candidates-entries :
      (snapshots : List EntitySnapshot) (m : List (Text × Candidate))
      → all_new (ids snapshots) (keys m) ≡ true
      → collect_candidates rules name tokens snapshots m ≡ m ++ entries snapshots
  unfolding collect_candidates member
  collect_candidates-entries [] m h = sym (append-nil m)
  collect_candidates-entries (s ∷ snapshots) m h =
      let best = snapshot_confidence rules name tokens s in
      let fresh : member s.id (keys m) ≡ false = ground arith in
      let rest : all_new (ids snapshots) (s.id ∷ keys m) ≡ true = ground arith in
      elim (Bool-cases (skipped s || best.0 == 0)) [
        | inl e ↦ rw e (
            collect_candidates-entries snapshots m
              (all_new_fewer (ids snapshots) (s.id ∷ keys m) (keys m) (λ y k. ground arith) rest))
        | inr e ↦
            let c : Candidate = record { entity_id = s.id; confidence = best.0; reason = best.1 } in
            rw (e, store_new s.id c m fresh)
              (collect_candidates-entries snapshots (m ++ (s.id, c) ∷ []) (
                  all_new_agree (ids snapshots) (keys (m ++ (s.id, c) ∷ [])) (s.id ∷ keys m)
                    (λ y. member-keys s.id y c m)
                  ∙ rest)
                ∙ append_assoc m ((s.id, c) ∷ []) (entries snapshots))
      ]

  entries-Permᴰ : {xs ys : List EntitySnapshot} → Permᴰ xs ys → Permᴰ (entries xs) (entries ys)
  entries-Permᴰ Permᴰ.nil = Permᴰ.nil
  entries-Permᴰ (Permᴰ.cons {a = a} {b = b} {l₁ = xs} {l₂ = ys} e p) =
      subst (λ t. Permᴰ (entries (a ∷ xs)) (entries (t ∷ ys))) e
        (front-Permᴰ (entry_of a) (entries-Permᴰ p))
  entries-Permᴰ (Permᴰ.swap {a = a} {b = b} {l = l} e f) =
      subst₂ (λ t u. Permᴰ (entries (a ∷ b ∷ l)) (entries (u ∷ t ∷ l))) e f
        (front_swap (entry_of a) (entry_of b) (entries l))
  entries-Permᴰ (Permᴰ.trans p q) = Permᴰ.trans (entries-Permᴰ p) (entries-Permᴰ q)

  entry_keys :
      (snapshots : List EntitySnapshot) (seen : List Text)
      → all_new (ids snapshots) seen ≡ true
      → all_new (map (λ e. e.1.entity_id) (entries snapshots)) seen ≡ true
  unfolding member
  entry_keys [] seen h = refl
  entry_keys (s ∷ snapshots) seen h =
      let best = snapshot_confidence rules name tokens s in
      let rest = entry_keys snapshots (s.id ∷ seen) (ground arith) in
      elim (Bool-cases (skipped s || best.0 == 0)) [
        | inl e ↦ rw e (
            all_new_fewer (map (λ e. e.1.entity_id) (entries snapshots)) (s.id ∷ seen) seen
              (λ y k. ground arith) rest)
        | inr e ↦ rw e (ground (arith, rest))
      ]

  ranked_keys :
      (snapshots : List EntitySnapshot)
      → Nodup (ids snapshots)
      → Nodup (map rank_key (map (λ e. e.1) (entries snapshots)))
  ranked_keys snapshots n =
      let cs = entries snapshots in
      let named : Nodup (map (λ e. e.1.entity_id) cs) =
        all_new-Nodup _ (entry_keys snapshots [] (Nodup-all_new (ids snapshots) n)) in
      let together =
        map-map (λ k. k.1) rank_key (map (λ e. e.1) cs)
        ∙ map-map (λ c. c.entity_id) (λ e. e.1) cs in
      of_map (λ k. k.1) (subst Nodup (sym together) named)

pub resolution_of-manual :
    (ids : List Text) (candidates : List Candidate)
    → (resolution_of ids candidates).auto_resolved ≡ false
    → resolution_of ids candidates
      ≡ record { entity_id = []; auto_resolved = false; candidates = candidates }
unfolding resolution_of
resolution_of-manual [] candidates h = refl
resolution_of-manual (id ∷ []) candidates h = cc
resolution_of-manual (id ∷ other ∷ ids) candidates h = refl

module _ (rules : TextRules) where
  collected :
      (name : Text) (snapshots : List EntitySnapshot)
      → Nodup (ids snapshots)
      → collect_candidates rules name (fields name) snapshots []
        ≡ entries rules name (fields name) snapshots
  collected name snapshots n =
      collect_candidates-entries rules name (fields name) snapshots []
        (Nodup-all_new (ids snapshots) n)

  rank_candidates_order :
      (name : Text) (snapshots listed : List EntitySnapshot)
      → Nodup (ids snapshots)
      → Permᴰ snapshots listed
      → rank_candidates rules name snapshots ≡ rank_candidates rules name listed
  unfolding rank_candidates
  rank_candidates_order name snapshots listed n p =
      let n' : Nodup (ids listed) =
        Perm.nodup (Perm.map (λ s. s.id) {l₁ = snapshots} {l₂ = listed} ∣ p ∣₁) n in
      let sorted =
        sort_on-Permᴰ ⦃o = pair_order ⦃o = falling_order⦄ ⦃p = text_order⦄⦄ rank_key
          (Permᴰ-map (λ e. e.1) (entries-Permᴰ rules name (fields name) p))
          (ranked_keys rules name (fields name) snapshots n) in
      rw (collected name snapshots n, collected name listed n', sorted) refl

  -- Where no two snapshots have the same entity identifier, the order in which they are listed does
  -- not change the resolution of a mention.
  pub resolve_order :
      (mention : Mention) (snapshots listed : List EntitySnapshot)
      → Nodup (map (λ s. s.id) snapshots)
      → Permᴰ snapshots listed
      → resolve rules mention listed ≡ resolve rules mention snapshots
  unfolding resolve
  resolve_order mention snapshots listed n p =
      elim (Bool-cases (resolve rules mention snapshots).auto_resolved) [
        | inl e ↦ resolve-auto_order rules mention snapshots listed e p
        | inr e ↦ elim (Bool-cases (resolve rules mention listed).auto_resolved) [
          | inl f ↦ sym (resolve-auto_order rules mention listed snapshots f (Permᴰ.symm p))
          | inr f ↦
              resolution_of-manual _ _ f
              ∙ ap (λ cs. record { entity_id = []; auto_resolved = false; candidates = cs })
                  (sym (
                    rank_candidates_order (normalize_name rules mention.name) snapshots listed n p))
              ∙ sym (resolution_of-manual _ _ e)
        ]
      ]
