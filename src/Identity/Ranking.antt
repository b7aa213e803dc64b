-- ===== src/Identity/Ranking.antt =====
-- The confidences of the candidates that are ranked (core/identity/resolver.go).
use stacks.Base.{
  pair_order, is_empty, add_all, ◌≤◌, ◌<◌, ◌≡◌, refl, true, ◌||◌, List, [], ◌∷◌, Text, text_order,
  any, arith, All, Bool-cases, inl, inr, ◌==◌, length,
}
use stacks.Base.Entries.{All-map_to, All-sort_on, All-store, All-map}
use stacks.Observation.Confidences.{
  Float64, one_bits, in_unit_interval, finite, below_zero, above_one,
}
use stacks.Identity.Bounds.{ratio_bound}
use stacks.Identity.Names.{TextRules, normalize_name, fields}
use stacks.Identity.Values.{Alias, EntitySnapshot, Mention, Candidate}
use stacks.Identity.Resolver.{
  skipped, name_confidence, resolve, resolution_of, best_alias, snapshot_confidence,
  collect_candidates, rank_candidates, larger, count_shared, falling_order, rank_key,
}

pub count_shared-length : (tokens seen : List Text) → count_shared tokens seen ≤ length tokens
count_shared-length [] seen = omega arith
count_shared-length (token ∷ tokens) seen = ground (arith, count_shared-length tokens seen)

name_confidence_bound :
    (mention : Text) (tokens : List Text) (candidate : Text)
    → (name_confidence mention tokens candidate).0 ≤ one_bits
unfolding name_confidence
name_confidence_bound mention tokens candidate = ground (
  arith,
  count_shared-length tokens (add_all (fields candidate) []),
  ratio_bound (count_shared tokens (add_all (fields candidate) []))
      (larger (length tokens) (length (fields candidate))),
)

abbrev InUnit : Candidate → Type 0
InUnit c = (0 < c.confidence) × (in_unit_interval c.confidence ≡ true)

resolution_of-InUnit :
    (ids : List Text) (candidates : List Candidate)
    → All InUnit candidates
    → All InUnit (resolution_of ids candidates).candidates
unfolding resolution_of
resolution_of-InUnit [] candidates h = h
resolution_of-InUnit (id ∷ []) candidates h = tt
resolution_of-InUnit (id ∷ other ∷ ids) candidates h = h

module _ (rules : TextRules) where
  best_alias_bound :
      (name : Text) (tokens : List Text) (aliases : List Alias) (best : Float64 × Text)
      → best.0 ≤ one_bits
      → (best_alias rules name tokens aliases best).0 ≤ one_bits
  unfolding best_alias
  best_alias_bound name tokens [] best h = h
  best_alias_bound name tokens (alias ∷ aliases) best h =
      best_alias_bound name tokens aliases _
        (ground (arith, name_confidence_bound name tokens (normalize_name rules alias.value)))

  -- A candidate of an entity, with a confidence above 0 and at most 1.
  abbrev pub Graded : Text → Candidate → Type 0
  Graded id candidate =
      (candidate.entity_id ≡ id) × (0 < candidate.confidence) × (candidate.confidence ≤ one_bits)

  pub collect_candidates-Graded :
      (name : Text) (tokens : List Text) (snapshots : List EntitySnapshot)
      (candidates : List (Text × Candidate))
      → All (λ e. Graded e.0 e.1) candidates
      → All (λ e. Graded e.0 e.1) (collect_candidates rules name tokens snapshots candidates)
  unfolding collect_candidates snapshot_confidence
  collect_candidates-Graded name tokens [] candidates h = h
  collect_candidates-Graded name tokens (s ∷ snapshots) candidates h =
      elim (Bool-cases (skipped s || (snapshot_confidence rules name tokens s).0 == 0)) [
        | inl e ↦ rw (e) (collect_candidates-Graded name tokens snapshots candidates h)
        | inr e ↦ rw e (
            collect_candidates-Graded name tokens snapshots _ (
              All-store Graded s.id _ candidates
                (
                  refl,
                  ground arith,
                  best_alias_bound name tokens s.aliases _
                      (name_confidence_bound name tokens (normalize_name rules s.display_name)),
                )
                h))
      ]

  -- The confidence of a candidate passes the test of `NewResolutionCandidate`.
  in_unit_interval_graded : (c : Float64) → c ≤ one_bits → in_unit_interval c ≡ true
  unfolding in_unit_interval finite below_zero above_one
  in_unit_interval_graded c h = ground arith

  rank_candidates_bound :
      (name : Text) (snapshots : List EntitySnapshot)
      → All InUnit (rank_candidates rules name snapshots)
  unfolding rank_candidates
  rank_candidates_bound name snapshots =
      elim (Bool-cases (is_empty name || any (λ b. b == 64) name)) [
        | inl e ↦ rw e tt
        | inr e ↦ rw e (
            All-sort_on ⦃o = pair_order ⦃o = falling_order⦄ ⦃p = text_order⦄⦄ InUnit rank_key _ (
              All-map InUnit (λ entry. entry.1)
                (collect_candidates rules name (fields name) snapshots [])
                (All-map_to (λ e. Graded e.0 e.1) (λ e. InUnit e.1) _
                  (λ e g. (g.1, in_unit_interval_graded e.1.confidence g.2))
                  (collect_candidates-Graded name (fields name) snapshots [] tt))))
      ]

  -- Every candidate of a mention has a confidence above 0 that lies in the unit interval.
  pub resolve_bound :
      (mention : Mention) (snapshots : List EntitySnapshot)
      → All
          (λ c. (0 < c.confidence) × (in_unit_interval c.confidence ≡ true))
          (resolve rules mention snapshots).candidates
  unfolding resolve
  resolve_bound mention snapshots =
      resolution_of-InUnit _ _ (rank_candidates_bound (normalize_name rules mention.name) snapshots)
