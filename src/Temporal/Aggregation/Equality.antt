-- ===== src/Temporal/Aggregation/Equality.antt =====
-- `observationsEqual` and `temporalExtentsEqual` of core/temporal/aggregation.go.
use stacks.Base.{
  Bool, true, false, not, ◌&&◌, Option, none, some, List, [], map, Text, same, nat_order,
  text_order, pair_order, list_order, ◌==◌, if◌then◌else◌,
}
use stacks.Timepoint.{Time}
use stacks.Observation.Terms.{Term, kind, entity_term}
use stacks.Observation.Extents.{TemporalExtent, extent_kind, instant_of, bounds}
use stacks.Observation.Confidences.{Confidence, float_equal}
use stacks.Observation.Digests.{Statement, EvidenceLink, Derivation}
use stacks.Observation.Claims.{Observation, link_key}
use stacks.Temporal.Terms.{term_payload}

-- `leftHas == rightHas && (!leftHas || left.Equal(right))`
unfoldable pub bound_equal : Option Time → Option Time → Bool
bound_equal none none = true
bound_equal (some l) (some r) = l == r
bound_equal _ _ = false

unfoldable pub temporal_extents_equal : TemporalExtent → TemporalExtent → Bool
unfolding bound_equal extent_kind instant_of bounds
temporal_extents_equal left right =
    if not (extent_kind left == extent_kind right) then false else elim (instant_of left) [
      | some l ↦ bound_equal (some l) (instant_of right)
      | none ↦
          bound_equal (bounds left).0 (bounds right).0
          && bound_equal (bounds left).1 (bounds right).1
    ]

unfoldable pub grounding_of : Term → Text
grounding_of (entity_term id grounding) = grounding
grounding_of _ = []

-- `==` on terms, which compares every field.
unfoldable pub term_equal : Term → Term → Bool
unfolding kind term_payload grounding_of
term_equal left right =
    kind left == kind right
    && same (term_payload left) (term_payload right)
    && same (grounding_of left) (grounding_of right)

unfoldable pub statement_equal : Statement → Statement → Bool
unfolding term_equal
statement_equal left right =
    term_equal left.subject right.subject
    && same left.predicate right.predicate
    && term_equal left.object right.object

unfoldable pub derivation_equal : Derivation → Derivation → Bool
derivation_equal left right =
    same left.method right.method
    && same left.version right.version
    && same left.run_id right.run_id
    && same left.model right.model
    && same left.prompt_version right.prompt_version

-- `slices.Equal` on evidence links.
unfoldable pub links_equal : List EvidenceLink → List EvidenceLink → Bool
links_equal left right = same (map link_key left) (map link_key right)

unfoldable pub confidence_equal : Option Confidence → Option Confidence → Bool
confidence_equal none none = true
confidence_equal (some l) (some r) = float_equal l.value r.value && same l.scale r.scale
confidence_equal _ _ = false

unfoldable pub observations_equal : Observation → Observation → Bool
unfolding statement_equal derivation_equal links_equal confidence_equal temporal_extents_equal
observations_equal left right =
    same left.id right.id
    && statement_equal left.statement right.statement
    && temporal_extents_equal left.valid_time right.valid_time
    && left.recorded_at == right.recorded_at
    && links_equal left.evidence right.evidence
    && derivation_equal left.derivation right.derivation
    && same left.status right.status
    && confidence_equal left.confidence right.confidence
