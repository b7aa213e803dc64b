-- ===== src/Tests/Resolutions.antt =====
-- Two persons, one of whom has an accepted address, and a mention of each.
use stacks.Base.{false}
use stacks.Identity.Listed.{resolve_lists, FewWords, NamesFit, akin}
use stacks.Identity.Resolver.{
  skipped, best_alias, name_confidence, snapshot_confidence, rank_candidates, collect_candidates,
  collect_matches, resolution_of, add_matches, matching_accepted_emails, resolve, mention_email,
}
use stacks.Base.{
  not, ◌&&◌, is_empty, ◌==◌, add_all, store, pair_cmp, any, sort_on, add, trim_space, ◌^◌, list_cmp,
  ◌*◌, member, arith, ◌≡◌, refl, true, List, [], ◌∷◌, map, some, Text, bytes, same, text_order, All,
  ◌<◌,
}
use stacks.Identity.Names.{
  normalize_name, fields, fields_from, valid_email, normalize_email, plain_address, TextRules,
}
use stacks.Identity.Ratios.{nearest, ratio, ratio_from}
use Prim.Native.Nat.{ℕ}
use mathlib.Core.List.{Permᴰ, Nodup}
use stacks.Base.Distinct.{all_new-Nodup}
use stacks.Tests.Samples.{moment}
use stacks.Observation.Confidences.{in_unit_interval}
use stacks.Identity.Values.{
  EntitySnapshot, Mention, Alias, kind_person, alias_type_email, alias_type_name,
}
use stacks.Identity.Matches.{accepted_by, resolve-auto, resolve_unique}
use stacks.Identity.Ranking.{resolve_bound}
use stacks.Identity.Orderings.{resolve_order}

-- Texts in normal form and in lower case already, and addresses without a name.
abbrev plain_rules : TextRules
plain_rules = record {
  nfkc = λ text. text;
  to_lower = λ text. text;
  parse_address = λ text. some ([], text);
}

abbrev person : Text → Text → List Alias → EntitySnapshot
person id name aliases = record {
  id = id;
  kind = kind_person;
  display_name = name;
  recorded_at = moment 1000;
  aliases = aliases;
}

abbrev ada : EntitySnapshot
ada =
    person (bytes "p1") (bytes "ada lovelace")
      (record { alias_type = alias_type_email; value = bytes "ada@x.org" } ∷ [])

abbrev grace : EntitySnapshot
grace =
    person (bytes "p2") (bytes "grace hopper")
      (record { alias_type = alias_type_name; value = bytes "ada hopper" } ∷ [])

abbrev people : List EntitySnapshot
people = ada ∷ grace ∷ []

-- A mention with the address of one of them.
abbrev by_email : Mention
by_email = record { name = bytes "A. L."; email = bytes "ada@x.org" }

-- A mention without an address, whose name shares a word with both.
abbrev by_name : Mention
by_name = record { name = bytes "ada"; email = [] }

resolved :
    resolve plain_rules by_email people
    ≡ record { entity_id = bytes "p1"; auto_resolved = true; candidates = [] }
unfolding resolve resolution_of matching_accepted_emails sort_on collect_matches list_cmp bytes
    add_matches valid_email normalize_email trim_space any plain_address add
resolved = refl

-- Half of the words of each name are shared.
ranked :
    map {B = Text × ℕ}
      (λ c. (c.entity_id, c.confidence))
      (resolve plain_rules by_name people).candidates
    ≡ (bytes "p1", 1022 * 2 ^ 52) ∷ (bytes "p2", 1022 * 2 ^ 52) ∷ []
unfolding resolve resolution_of matching_accepted_emails sort_on collect_matches list_cmp bytes
    add_matches valid_email normalize_email trim_space rank_candidates normalize_name fields
    fields_from any collect_candidates add add_all member store pair_cmp plain_address nearest ratio
    ratio_from best_alias name_confidence snapshot_confidence
ranked = refl

auto : (resolve plain_rules by_email people).auto_resolved ≡ true
unfolding resolve resolution_of matching_accepted_emails sort_on collect_matches list_cmp bytes
    add_matches valid_email normalize_email trim_space any plain_address add
auto = refl

resolve-auto_example :
    accepted_by plain_rules (mention_email plain_rules by_email) people (bytes "p1")
    ≡ same (resolve plain_rules by_email people).entity_id (bytes "p1")
resolve-auto_example = resolve-auto plain_rules by_email people (bytes "p1") auto

only_ada :
    (j : Text)
    → accepted_by plain_rules (mention_email plain_rules by_email) people j ≡ same (bytes "p1") j
unfolding any plain_address add bytes list_cmp trim_space valid_email normalize_email
only_ada j = ground arith

resolve_unique_example :
    resolve plain_rules by_email people
    ≡ record { entity_id = bytes "p1"; auto_resolved = true; candidates = [] }
resolve_unique_example = resolve_unique plain_rules by_email people (bytes "p1") only_ada

different : Nodup (map (λ s. s.id) people)
unfolding bytes member list_cmp
different = all_new-Nodup (map (λ s. s.id) people) refl

resolve_order_example :
    resolve plain_rules by_name (grace ∷ ada ∷ []) ≡ resolve plain_rules by_name people
resolve_order_example =
    resolve_order plain_rules by_name people (grace ∷ ada ∷ []) different (Permᴰ.swap refl refl)

resolve_bound_example :
    All
      (λ c. (0 < c.confidence) × (in_unit_interval c.confidence ≡ true))
      (resolve plain_rules by_name people).candidates
resolve_bound_example = resolve_bound plain_rules by_name people

few_words : FewWords (normalize_name plain_rules by_name.name)
unfolding normalize_name fields fields_from bytes
few_words = omega arith

short_names : All (NamesFit plain_rules) people
unfolding normalize_name fields fields_from bytes
short_names = ((omega arith, (omega arith, tt)), ((omega arith, (omega arith, tt)), tt))

for_review : (resolve plain_rules by_name people).auto_resolved ≡ false
unfolding resolve resolution_of matching_accepted_emails sort_on collect_matches list_cmp bytes
    add_matches valid_email normalize_email trim_space any plain_address add
for_review = refl

resolve_lists_example :
    any (λ c. same c.entity_id (bytes "p2")) (resolve plain_rules by_name people).candidates ≡ (
      (not (is_empty (normalize_name plain_rules by_name.name))
        && not (any (λ b. b == 64) (normalize_name plain_rules by_name.name)))
      && any
          (λ s.
            same s.id (bytes "p2")
            && (not (skipped s) && akin plain_rules (normalize_name plain_rules by_name.name) s))
          people)
resolve_lists_example =
    resolve_lists plain_rules by_name people (bytes "p2") few_words short_names for_review
