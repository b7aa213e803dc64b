-- ===== src/Query/Authority.antt =====
-- internal/query/projection.go: the entities that a snapshot knows.
use stacks.Base.{
  Bool, true, false, not, List, [], ◌∷◌, Option, none, some, Text, is_empty, trim_space, text_order,
  pair_order, list_order, member, add_all, find, store, Result, ok, err, refuse, ◌>>=◌, ◌>>◌,
  if◌then◌else◌,
}
use stacks.Query.Snapshots.{EntityAuthority}

-- The tests of one authority that the snapshot has, given those before it.
unfoldable pub known_conflicts : Option Bool → Bool → Bool
known_conflicts none known = false
known_conflicts (some prior) known = if prior then not known else known

abbrev pub exists_in : Option Bool → Bool
exists_in none = false
exists_in (some prior) = true

-- The loop over the authorities of the snapshot.
unfoldable pub collect_authorities :
    List Text → List EntityAuthority → List (Text × Bool) → Result (List (Text × Bool))
unfolding known_conflicts
collect_authorities requested [] known = ok known
collect_authorities requested (authority ∷ authorities) known = do
  refuse (is_empty (trim_space authority.entity_id)) "entity authority is invalid"
  refuse (not (member authority.entity_id requested)) "entity authority is outside the selection"
  refuse (known_conflicts (find authority.entity_id known) authority.known)
      "entity authority conflicts"
  refuse (exists_in (find authority.entity_id known)) "entity authority is duplicated"
  collect_authorities requested authorities (store authority.entity_id authority.known known)

abbrev pub check_known : Option Bool → Result (Unit {0})
check_known none = err "entity authority is missing"
check_known (some known) = refuse (not known) "query entity not found"

-- The loop over the entities of the request.
unfoldable pub check_entities : List Text → List (Text × Bool) → Result (Unit {0})
check_entities [] known = ok tt
check_entities (entity_id ∷ entity_ids) known = do
  check_known (find entity_id known)
  check_entities entity_ids known

unfoldable pub validate_snapshot_authority : List Text → List EntityAuthority → Result (Unit {0})
validate_snapshot_authority entity_ids authorities = do
  known ← collect_authorities (add_all entity_ids []) authorities []
  check_entities entity_ids known
