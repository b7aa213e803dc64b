-- ===== src/Identity/Resolver.antt =====
-- core/identity/resolver.go: the resolution of a mention against a snapshot of the entities.
use stacks.Base.{
  arith, Ordering, ◌≡◌, ℕ, ◌+◌, Bool, true, false, not, ◌&&◌, ◌||◌, List, [], ◌∷◌, ◌++◌, map, Text,
  bytes, is_empty, same, text_order, pair_order, nat_order, Order, member, add, add_all, store,
  length, any, ltb, ◌==◌, sort_on, if◌then◌else◌, compare, flip,
}
use stacks.Observation.Confidences.{Float64, one_bits}
use stacks.Identity.Names.{TextRules, fields, normalize_name, normalize_email, valid_email}
use stacks.Identity.Ratios.{ratio}
use stacks.Identity.Values.{
  Alias, EntitySnapshot, Mention, Candidate, Resolution, kind_person, alias_type_name,
  alias_type_email,
}

-- `snapshot.Kind != KindPerson || snapshot.ID == ""`
abbrev pub skipped : EntitySnapshot → Bool
skipped snapshot = not (same snapshot.kind kind_person) || is_empty snapshot.id

-- How many tokens of the mention `seen` has.
abbrev pub count_shared : List Text → List Text → ℕ
count_shared [] seen = 0
count_shared (token ∷ tokens) seen = (if member token seen then 1 else 0) + count_shared tokens seen

abbrev pub larger : ℕ → ℕ → ℕ
larger a b = if ltb a b then b else a

unfoldable pub name_confidence : Text → List Text → Text → Float64 × Text
name_confidence mention mention_tokens candidate =
    if is_empty candidate
    then (0, [])
    else if same mention candidate
    then (one_bits, bytes "exact name match")
    else let candidate_tokens = fields candidate in
      if length mention_tokens == 0 || length candidate_tokens == 0
      then (0, [])
      else let shared = count_shared mention_tokens (add_all candidate_tokens []) in
        if shared == 0 then (0, []) else (
          ratio shared (larger (length mention_tokens) (length candidate_tokens)),
          bytes "name token overlap",
        )

-- The order of confidences in the ranking: the greatest first.
pub falling_flip : (a b : Float64) → compare a b ≡ flip (compare b a)
falling_flip a b = ground arith

pub falling-eq : (a b : Float64) → compare b a ≡ Ordering.eq → a ≡ b
falling-eq a b h = ground arith

pub falling_trans :
    (a b c : Float64)
    → compare b a ≡ Ordering.lt
    → compare c b ≡ Ordering.lt
    → compare c a ≡ Ordering.lt
falling_trans a b c h k = ground arith

pub falling_refl : (a : Float64) → compare a a ≡ Ordering.eq
falling_refl a = ground arith

abbrev pub falling_order : Order Float64
falling_order = record {
  cmp = λ a b. compare b a;
  cmp_eq = falling-eq;
  cmp_refl = falling_refl;
  cmp_flip = falling_flip;
  cmp_trans = falling_trans;
}

abbrev pub rank_key : Candidate → Float64 × Text
rank_key candidate = (candidate.confidence, candidate.entity_id)

-- The two ways to return.
unfoldable pub resolution_of : List Text → List Candidate → Resolution
resolution_of (id ∷ []) candidates = record {
  entity_id = id;
  auto_resolved = true;
  candidates = [];
}
resolution_of ids candidates = record {
  entity_id = [];
  auto_resolved = false;
  candidates = candidates;
}

module _ (rules : TextRules) where
  -- An alias of this type with the normalized address.
  abbrev pub alias_matches : Text → Alias → Bool
  alias_matches normalized_email alias =
      same alias.alias_type alias_type_email
      && not (is_empty normalized_email)
      && same normalized_email (normalize_email rules alias.value)

  -- The loop over the aliases of a snapshot.
  unfoldable pub add_matches : Text → Text → List Alias → List Text → List Text
  add_matches normalized_email id [] matches = matches
  add_matches normalized_email id (alias ∷ aliases) matches =
      add_matches normalized_email id aliases
        (if alias_matches normalized_email alias then add id matches else matches)

  -- The loop over the snapshots.
  unfoldable pub collect_matches : Text → List EntitySnapshot → List Text → List Text
  collect_matches normalized_email [] matches = matches
  collect_matches normalized_email (snapshot ∷ snapshots) matches =
      collect_matches normalized_email snapshots (
        if skipped snapshot
        then matches
        else add_matches normalized_email snapshot.id snapshot.aliases matches)

  unfoldable pub matching_accepted_emails : Text → List EntitySnapshot → List Text
  matching_accepted_emails normalized_email snapshots =
      sort_on (λ id. id) (collect_matches normalized_email snapshots [])

  -- The loop over the aliases that are names: the best confidence so far, with its reason.
  unfoldable pub best_alias : Text → List Text → List Alias → Float64 × Text → Float64 × Text
  best_alias name tokens [] best = best
  best_alias name tokens (alias ∷ aliases) best =
      let this = name_confidence name tokens (normalize_name rules alias.value) in
      best_alias name tokens aliases (
        if not (same alias.alias_type alias_type_name)
        then best
        else if ltb best.0 this.0
        then (this.0, bytes "accepted alias " ++ this.1)
        else best)

  unfoldable pub snapshot_confidence : Text → List Text → EntitySnapshot → Float64 × Text
  snapshot_confidence name tokens snapshot =
      best_alias name tokens snapshot.aliases
        (name_confidence name tokens (normalize_name rules snapshot.display_name))

  -- The loop over the snapshots.
  unfoldable pub collect_candidates :
      Text → List Text → List EntitySnapshot → List (Text × Candidate) → List (Text × Candidate)
  collect_candidates name tokens [] candidates = candidates
  collect_candidates name tokens (snapshot ∷ snapshots) candidates =
      let best = snapshot_confidence name tokens snapshot in
      collect_candidates name tokens snapshots (
        if skipped snapshot || best.0 == 0
        then candidates
        else store snapshot.id
            (record { entity_id = snapshot.id; confidence = best.0; reason = best.1 }) candidates)

  unfoldable pub rank_candidates : Text → List EntitySnapshot → List Candidate
  rank_candidates normalized_name snapshots =
      if is_empty normalized_name || any (λ b. b == 64) normalized_name
      then []
      else sort_on ⦃o = pair_order ⦃o = falling_order⦄ ⦃p = text_order⦄⦄ rank_key (
          map (λ entry. entry.1)
            (collect_candidates normalized_name (fields normalized_name) snapshots []))

  -- The mention's address, or no address where it is not valid.
  abbrev pub mention_email : Mention → Text
  mention_email mention =
      let normalized = normalize_email rules mention.email in
      if not (valid_email rules normalized) then [] else normalized

  -- `Resolver.Resolve`
  unfoldable pub resolve : Mention → List EntitySnapshot → Resolution
  resolve mention snapshots =
      resolution_of (matching_accepted_emails (mention_email mention) snapshots)
        (rank_candidates (normalize_name rules mention.name) snapshots)
