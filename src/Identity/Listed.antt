-- ===== src/Identity/Listed.antt =====
-- Which persons are listed for the review of a mention (core/identity/resolver.go).
use stacks.Base.{
  same→eq, pair_order, is_empty, add_all, member, member-add_all, ◌<◌, ◌^◌, ◌≡◌, refl, ap, ◌∙◌,
  Bool, false, not, ◌&&◌, ◌||◌, List, [], ◌∷◌, map, Text, text_order, any, arith, All, Bool-cases,
  inl, inr, ◌==◌, length, same, store,
}
use stacks.Base.Anys.{any-same, any-map, any-sort_on}
use stacks.Base.Entries.{All-map_to}
use stacks.Identity.Bounds.{ratio_found}
use stacks.Identity.Names.{TextRules, normalize_name, fields}
use stacks.Identity.Values.{Alias, EntitySnapshot, Mention, Candidate, alias_type_name}
use stacks.Identity.Ranking.{collect_candidates-Graded, Graded, count_shared-length}
use stacks.Identity.Orderings.{resolution_of-manual}
use stacks.Observation.Confidences.{Float64}
use stacks.Identity.Resolver.{
  skipped, name_confidence, resolve, best_alias, snapshot_confidence, collect_candidates,
  rank_candidates, larger, count_shared, falling_order, rank_key,
}

-- The name of an entity is not empty, and equals the name of the mention or shares a word with it.
abbrev pub related : Text → Text → Bool
related mention name =
    not (is_empty name)
    && (same mention name || any (λ word. member word (fields name)) (fields mention))

-- The numbers of words are exact as floats.
abbrev pub FewWords : Text → Type 0
FewWords text = length (fields text) < 2 ^ 53

shared_none :
    (tokens words : List Text)
    → (count_shared tokens (add_all words []) == 0) ≡ not (any (λ word. member word words) tokens)
unfolding any member
shared_none [] words = refl
shared_none (token ∷ tokens) words =
    ground (arith, shared_none tokens words, member-add_all token words [])

no_words :
    (tokens words : List Text) → length words ≡ 0 → any (λ word. member word words) tokens ≡ false
unfolding any member
no_words [] words h = refl
no_words (token ∷ tokens) [] h = no_words tokens [] h
no_words (token ∷ tokens) (word ∷ words) h = ground arith

name_confidence_lem :
    (mention name : Text)
    → FewWords mention
    → FewWords name
    → ((name_confidence mention (fields mention) name).0 == 0) ≡ not (related mention name)
unfolding name_confidence
name_confidence_lem mention name h k = ground (
  arith,
  shared_none (fields mention) (fields name),
  no_words (fields mention) (fields name),
  count_shared-length (fields mention) (add_all (fields name) []),
  ratio_found (count_shared (fields mention) (add_all (fields name) []))
      (larger (length (fields mention)) (length (fields name))),
)

keyed-store :
    (id key : Text) (v : Candidate) (m : List (Text × Candidate))
    → any (λ e. same e.0 id) (store key v m) ≡ (same key id || any (λ e. same e.0 id) m)
unfolding any store
keyed-store id key v [] = refl
keyed-store id key v ((j, w) ∷ m) = ground (arith, keyed-store id key v m, same→eq j key)

module _ (rules : TextRules) where
  -- The name of an entity, or an alias that is a name, is related to the name of the mention.
  abbrev pub akin : Text → EntitySnapshot → Bool
  akin name s =
      related name (normalize_name rules s.display_name)
      || any (λ a. same a.alias_type alias_type_name && related name (normalize_name rules a.value))
          s.aliases

  abbrev pub AliasesFit : List Alias → Type 0
  AliasesFit aliases = All (λ a. FewWords (normalize_name rules a.value)) aliases

  abbrev pub NamesFit : EntitySnapshot → Type 0
  NamesFit s = FewWords (normalize_name rules s.display_name) × AliasesFit s.aliases

  module _ (name : Text) (few : FewWords name) where
    best_alias_lem :
        (aliases : List Alias) (best : Float64 × Text)
        → AliasesFit aliases
        → ((best_alias rules name (fields name) aliases best).0 == 0) ≡ (
            (best.0 == 0)
            && not (
                any
                  (λ a.
                    same a.alias_type alias_type_name
                    && related name (normalize_name rules a.value))
                  aliases))
    unfolding best_alias any
    best_alias_lem [] best h = ground arith
    best_alias_lem (a ∷ aliases) best (here, rest) =
        best_alias_lem aliases _ rest
        ∙ ground (arith, name_confidence_lem name (normalize_name rules a.value) few here)

    snapshot_confidence_lem :
        (s : EntitySnapshot)
        → NamesFit s
        → ((snapshot_confidence rules name (fields name) s).0 == 0) ≡ not (akin name s)
    unfolding snapshot_confidence
    snapshot_confidence_lem s (here, rest) =
        best_alias_lem s.aliases _ rest
        ∙ ground (arith, name_confidence_lem name (normalize_name rules s.display_name) few here)

    collect_candidates_lem :
        (id : Text) (snapshots : List EntitySnapshot) (m : List (Text × Candidate))
        → All NamesFit snapshots
        → any (λ e. same e.0 id) (collect_candidates rules name (fields name) snapshots m) ≡ (
            any (λ s. same s.id id && (not (skipped s) && akin name s)) snapshots
            || any (λ e. same e.0 id) m)
    unfolding collect_candidates any
    collect_candidates_lem id [] m h = refl
    collect_candidates_lem id (s ∷ snapshots) m (here, rest) =
        let best = snapshot_confidence rules name (fields name) s in
        collect_candidates_lem id snapshots _ rest
        ∙ ground (
          arith,
          snapshot_confidence_lem s here,
          keyed-store id s.id (record { entity_id = s.id; confidence = best.0; reason = best.1 }) m,
        )

    rank_candidates_lem :
        (id : Text) (snapshots : List EntitySnapshot)
        → All NamesFit snapshots
        → any (λ c. same c.entity_id id) (rank_candidates rules name snapshots) ≡ (
            (not (is_empty name) && not (any (λ b. b == 64) name))
            && any (λ s. same s.id id && (not (skipped s) && akin name s)) snapshots)
    unfolding rank_candidates
    rank_candidates_lem id snapshots h =
        let m = collect_candidates rules name (fields name) snapshots [] in
        let listed =
          any-sort_on ⦃o = pair_order ⦃o = falling_order⦄ ⦃p = text_order⦄⦄ rank_key
            (λ c. same c.entity_id id) (map (λ e. e.1) m)
          ∙ any-map (λ c. same c.entity_id id) (λ e. e.1) m
          ∙ any-same (λ e. same e.1.entity_id id) (λ e. same e.0 id) m
              (All-map_to (λ e. Graded rules e.0 e.1) _ m (λ e g. ap (λ i. same i id) g.0)
                (collect_candidates-Graded rules name (fields name) snapshots [] tt))
          ∙ collect_candidates_lem id snapshots [] h in
        elim (Bool-cases (is_empty name || any (λ b. b == 64) name)) [
          | inl e ↦ rw e (unfold any in ground (arith, e))
          | inr e ↦ rw e (listed ∙ unfold any in ground (arith, e))
        ]

  -- A mention that is not resolved automatically lists as candidates exactly the persons with a
  -- name, or an alias that is a name, that equals the name of the mention or shares a word with it,
  -- and none where the mention has no name or one with an `@`, if no name has 2 ^ 53 words or more.
  pub resolve_lists :
      (mention : Mention) (snapshots : List EntitySnapshot) (id : Text)
      → FewWords (normalize_name rules mention.name)
      → All NamesFit snapshots
      → (resolve rules mention snapshots).auto_resolved ≡ false
      → any (λ c. same c.entity_id id) (resolve rules mention snapshots).candidates ≡ (
          (not (is_empty (normalize_name rules mention.name))
            && not (any (λ b. b == 64) (normalize_name rules mention.name)))
          && any
              (λ s. same s.id id && (not (skipped s) && akin (normalize_name rules mention.name) s))
              snapshots)
  unfolding resolve
  resolve_lists mention snapshots id few fit manual =
      ap (λ r. any (λ c. same c.entity_id id) r.candidates) (resolution_of-manual _ _ manual)
      ∙ rank_candidates_lem (normalize_name rules mention.name) few id snapshots fit
