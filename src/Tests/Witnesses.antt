-- ===== src/Tests/Witnesses.antt =====
-- The properties at concrete inputs.
use stacks.Base.{
  ◌/◌, ◌%◌, not, refl, ◌≤◌, ◌<◌, ◌+◌, Ordering, flip, ok, arith, bytes, map, ◌↔◌, true, false, [],
  ◌≡◌, some, none, ◌∷◌, ◌&&◌, ◌||◌, All, any,
}
use stacks.Temporal.Trajectory.Transitions.{diff_trajectory_state_lem, latest_at, transition_for}
use stacks.Temporal.Trajectory.{diff_trajectory_state}
use stacks.Tests.Runs.{
  compare_window_summaries-sample, team_before_tenure, key_before_team, fields_fit, text_canonical,
  key_valid, one_microsecond, observation_fits-sample, plan_fits-sample,
  aggregate_candidates-sample, counted-sample, aggregate_window-sample, reconstruct_state-sample,
}
use stacks.Temporal.Comparison.Differences.{
  compare_window_summaries_lem, differ, change_at, unresolved_in,
}
use stacks.Temporal.Comparison.Maps.{value_at}
use stacks.Tests.Samples.{
  director_summary, role_change, engineer_group, member_of, team, team_group, sample_groups, link,
  two_links, observation_input, plan_input, identity_hash, rival, first, second, whole_window,
  engineer_summary, one_point, moment, key, everything_known,
}
use stacks.Temporal.Comparison.Keys.{key_at}
use stacks.Temporal.Terms.Order.{
  compare_state_keys_trans, compare_state_keys_lem, canonical_term-injective, state_key-injective,
}
use stacks.Timepoint.Laws.{
  normalize_lem, is_zero-normalize_iff, normalize_keeps_order, unix_micro-injective,
}
use stacks.CanonicalHash.Boundaries.{preimage-injective, view}
use mathlib.Core.List.{Permᴰ}
use stacks.CanonicalHash.{string, uint64}
use stacks.Observation.Accepted.{
  new_observation_order, new_observation-eq-ok, new_observation_accepts, observation_fits, observed,
}
use stacks.Observation.Claims.{evidence_supporting, evidence_contradicting, new_observation}
use stacks.Temporal.Aggregation.Counting.{held-aggregate_candidates, gives, counted}
use stacks.Temporal.Plans.Accepted.{new_plan_accepts, new_plan-eq-ok, plan_fits, planned}
use stacks.Temporal.Terms.{identity_for_term, compare_state_keys, identity_for_state_key}
use stacks.Temporal.Aggregation.Provenance.{supported, held}
use stacks.Temporal.Aggregation.Iteration.{summarize_groups_iteration}
use stacks.Temporal.Aggregation.Measures.{supporting_measure}
use stacks.Timepoint.{zero_time, normalize, is_zero, Time}
use stacks.Temporal.Eligibility.Meaning.{
  valid_time_eligibility_lem, Meets, temporal_extents_overlap_lem, point_valid_time_eligibility_lem,
  Covers, Says,
}
use stacks.Temporal.Aggregation.{summarize_groups}
use stacks.Observation.Terms.{text_term}
use stacks.Temporal.Plans.{new_plan}
use stacks.Temporal.Aggregation.Reported.{aggregate_window_reports, aggregate_window_apart}
use stacks.Temporal.Aggregation.Resolved.{
  aggregate_window-IsUncontested, reconstruct_state-IsUncontested, IsUncontested,
}
use stacks.Temporal.Aggregation.GroupKeys.{unresolved_at, fact_at}
use stacks.Observation.Extents.{window, interval, instant_at}
use stacks.Temporal.Eligibility.{
  point_valid_time_eligibility, valid_time_eligibility, temporal_extents_overlap,
}

aggregate_window-IsUncontested_example :
    All
      (IsUncontested everything_known
        (valid_time_eligibility whole_window.start whole_window.end)
        (second ∷ first ∷ []))
      (engineer_summary whole_window).facts
aggregate_window-IsUncontested_example =
    aggregate_window-IsUncontested whole_window everything_known (second ∷ first ∷ [])
      (engineer_summary whole_window) aggregate_window-sample

reconstruct_state-IsUncontested_example :
    All
      (IsUncontested everything_known
        (point_valid_time_eligibility one_point.start)
        (first ∷ second ∷ rival ∷ []))
      (engineer_summary one_point).facts
reconstruct_state-IsUncontested_example =
    reconstruct_state-IsUncontested one_point everything_known (first ∷ second ∷ rival ∷ [])
      (engineer_summary one_point) reconstruct_state-sample

aggregate_window_apart_example :
    (any (fact_at (identity_for_state_key key)) (engineer_summary whole_window).facts
      && any
          (unresolved_at (identity_for_state_key key))
          (engineer_summary whole_window).unresolved)
    ≡ false
aggregate_window_apart_example =
    aggregate_window_apart whole_window everything_known (second ∷ first ∷ [])
      (engineer_summary whole_window) aggregate_window-sample (identity_for_state_key key)

aggregate_window_reports_example :
    (any (fact_at (identity_for_state_key key)) (engineer_summary whole_window).facts
      || any
          (unresolved_at (identity_for_state_key key))
          (engineer_summary whole_window).unresolved)
    ≡ true
aggregate_window_reports_example =
    aggregate_window_reports whole_window everything_known (second ∷ first ∷ [])
      (engineer_summary whole_window) aggregate_window-sample (identity_for_state_key key)
      counted-sample

point_valid_time_eligibility_lem_example :
    Says
      (point_valid_time_eligibility (moment 4000) (interval none (some (moment 5000))))
      (interval none (some (moment 5000)))
      (Covers (interval none (some (moment 5000))) (moment 4000))
point_valid_time_eligibility_lem_example =
    point_valid_time_eligibility_lem (moment 4000) (interval none (some (moment 5000)))

valid_time_eligibility_lem_example :
    Says
      (valid_time_eligibility (moment 2000) (moment 8000) (window (moment 1000) (moment 3000)))
      (window (moment 1000) (moment 3000))
      (Meets (window (moment 1000) (moment 3000)) (moment 2000) (moment 8000))
valid_time_eligibility_lem_example =
    valid_time_eligibility_lem (moment 2000) (moment 8000) (window (moment 1000) (moment 3000))
      (omega arith) (omega arith)

temporal_extents_overlap_lem_example :
    (temporal_extents_overlap (instant_at (moment 2000)) (interval (some (moment 1000)) none)
      ≡ true)
    ↔ ((t : Time) × Covers (instant_at (moment 2000)) t
        × Covers (interval (some (moment 1000)) none) t)
temporal_extents_overlap_lem_example =
    temporal_extents_overlap_lem (instant_at (moment 2000)) (interval (some (moment 1000)) none) tt
      tt

held-aggregate_candidates_example :
    held supporting_measure supported
      (identity_for_state_key key)
      (identity_for_term (text_term (bytes "engineer")))
      sample_groups
      (bytes "e1")
    ≡ any
        (gives everything_known
          (valid_time_eligibility whole_window.start whole_window.end)
          supporting_measure
          supported
          (identity_for_state_key key)
          (identity_for_term (text_term (bytes "engineer")))
          (bytes "e1"))
        (counted everything_known
          (valid_time_eligibility whole_window.start whole_window.end)
          []
          (second ∷ first ∷ member_of ∷ []))
held-aggregate_candidates_example =
    held-aggregate_candidates everything_known
      (valid_time_eligibility whole_window.start whole_window.end) supporting_measure
      (second ∷ first ∷ member_of ∷ []) sample_groups aggregate_candidates-sample supported
      (identity_for_state_key key) (identity_for_term (text_term (bytes "engineer"))) (bytes "e1")

summarize_groups_iteration_example :
    summarize_groups (team_group ∷ engineer_group ∷ []) ≡ summarize_groups sample_groups
summarize_groups_iteration_example =
    summarize_groups_iteration everything_known
      (valid_time_eligibility whole_window.start whole_window.end) (second ∷ first ∷ member_of ∷ [])
      sample_groups (team_group ∷ engineer_group ∷ []) aggregate_candidates-sample
      (Permᴰ.swap refl refl)

new_plan_accepts_example : new_plan plan_input ≡ ok (planned plan_input)
new_plan_accepts_example = new_plan_accepts plan_input plan_fits-sample

new_plan-eq-ok_example : (planned plan_input ≡ planned plan_input) × (plan_fits plan_input ≡ true)
new_plan-eq-ok_example =
    new_plan-eq-ok plan_input (planned plan_input) (new_plan_accepts plan_input plan_fits-sample)

new_observation_accepts_example :
    new_observation identity_hash (observation_input two_links)
    ≡ ok (observed identity_hash (observation_input two_links))
new_observation_accepts_example =
    new_observation_accepts identity_hash (observation_input two_links) observation_fits-sample

new_observation-eq-ok_example :
    (observed identity_hash (observation_input two_links)
      ≡ observed identity_hash (observation_input two_links))
    × (observation_fits (observation_input two_links) ≡ true)
new_observation-eq-ok_example =
    new_observation-eq-ok identity_hash (observation_input two_links)
      (observed identity_hash (observation_input two_links))
      (new_observation_accepts identity_hash (observation_input two_links) observation_fits-sample)

new_observation_order_example :
    new_observation identity_hash (
      observation_input
        (link (bytes "e1") evidence_contradicting ∷ link (bytes "e2 ") evidence_supporting ∷ []))
    ≡ ok (observed identity_hash (observation_input two_links))
new_observation_order_example =
    new_observation_order identity_hash (observation_input two_links)
      (link (bytes "e1") evidence_contradicting ∷ link (bytes "e2 ") evidence_supporting ∷ [])
      (observed identity_hash (observation_input two_links))
      (new_observation_accepts identity_hash (observation_input two_links) observation_fits-sample)
      (Permᴰ.swap refl refl)

normalize_lem_example :
    (normalize (normalize (moment 1500)) ≡ normalize (moment 1500))
    × (normalize (moment 1500) % 1000 ≡ 0)
    × (normalize (moment 1500) ≤ moment 1500)
    × (moment 1500 < normalize (moment 1500) + 1000)
normalize_lem_example = normalize_lem (moment 1500)

normalize_keeps_order_example :
    (normalize (moment 1500) ≤ normalize (moment 1001)) ↔ (moment 1500 / 1000 ≤ moment 1001 / 1000)
normalize_keeps_order_example = normalize_keeps_order (moment 1500) (moment 1001)

is_zero-normalize_iff_example :
    (is_zero (normalize (moment 999)) ≡ true)
    ↔ ((zero_time ≤ moment 999) × (moment 999 < zero_time + 1000))
is_zero-normalize_iff_example = is_zero-normalize_iff (moment 999)

unix_micro-injective_example : normalize (moment 1500) ≡ normalize (moment 1001)
unix_micro-injective_example =
    unix_micro-injective (moment 1500) (moment 1001) (ground arith) (ground arith) one_microsecond

preimage-injective_example :
    map view (string (bytes "a") ∷ uint64 7 ∷ []) ≡ map view (string (bytes "a") ∷ uint64 7 ∷ [])
preimage-injective_example =
    preimage-injective (string (bytes "a") ∷ uint64 7 ∷ []) (string (bytes "a") ∷ uint64 7 ∷ [])
      fields_fit fields_fit refl

compare_state_keys_lem_example :
    ((compare_state_keys key key ≡ Ordering.eq)
      ↔ (identity_for_state_key key ≡ identity_for_state_key key))
    × (compare_state_keys key key ≡ flip (compare_state_keys key key))
compare_state_keys_lem_example = compare_state_keys_lem key key

canonical_term-injective_example : text_term (bytes "a") ≡ text_term (bytes "a")
canonical_term-injective_example =
    canonical_term-injective (text_term (bytes "a")) (text_term (bytes "a")) text_canonical
      text_canonical refl

state_key-injective_example : key ≡ key
state_key-injective_example = state_key-injective key key key_valid key_valid refl

compare_state_keys_trans_example :
    compare_state_keys key (record team { predicate = bytes "tenure" }) ≡ Ordering.lt
compare_state_keys_trans_example =
    compare_state_keys_trans key team (record team { predicate = bytes "tenure" }) key_before_team
      team_before_tenure

compare_window_summaries_lem_example :
    (any (key_at (identity_for_state_key key)) role_change.unresolved_keys
      ≡ unresolved_in (identity_for_state_key key) (engineer_summary whole_window) director_summary)
    × (any (change_at (identity_for_state_key key)) role_change.changes ≡ (
        not (
          unresolved_in
            (identity_for_state_key key)
            (engineer_summary whole_window)
            director_summary)
        && differ
            (value_at (identity_for_state_key key) (engineer_summary whole_window).facts)
            (value_at (identity_for_state_key key) director_summary.facts)))
compare_window_summaries_lem_example =
    compare_window_summaries_lem (engineer_summary whole_window) director_summary role_change
      compare_window_summaries-sample (identity_for_state_key key)

diff_trajectory_state_lem_example :
    any (transition_for (identity_for_state_key key)) (
      diff_trajectory_state
        (engineer_summary whole_window)
        director_summary
        (instant_at (moment 8000)))
    ≡ differ
        (latest_at (identity_for_state_key key) (engineer_summary whole_window).facts)
        (latest_at (identity_for_state_key key) director_summary.facts)
diff_trajectory_state_lem_example =
    diff_trajectory_state_lem (engineer_summary whole_window) director_summary
      (instant_at (moment 8000)) (identity_for_state_key key)
