-- ===== src/Tests/Runs.antt =====
-- Runs of the program on the samples.
use stacks.Tests.Samples.{
  role_change, director_summary, moment, team, member_of, two_links, observation_input, plan_input,
  sample_groups, key, first, second, rival, whole_window, one_point, everything_known,
  engineer_summary,
}
use stacks.Temporal.Comparison.{
  collect_unresolved_keys, key_unresolved, change_of, key_change, collect_changes,
  ordered_unresolved, ordered_facts, order_keys, store_unresolved_keys, store_fact_keys, all_keys,
  collect_unresolved, collect_ids, normalize_ids, validate_fact, collect_facts, validate_summary,
  compare_window_summaries,
}
use stacks.Base.{
  arith, Ordering, All, length, is_empty, true, ◌≡◌, refl, [], ◌∷◌, ok, bytes, pair_cmp, list_cmp,
  member, add, find, store, sort_on, any, all, trim_space,
}
use stacks.CanonicalHash.{string, uint64, put_uint64, payload}
use stacks.CanonicalHash.Boundaries.{FitsWord}
use stacks.Observation.Terms.{text_term, kind}
use stacks.Timepoint.{unix_micro, normalize, is_zero}
use stacks.Temporal.Terms.{
  validate_term, compare_state_keys, validate_canonical_term, candidate_matches_observation,
  validate_state_key, term_maps_to_state, compare_terms, identity_for_term, identity_for_state_key,
}
use stacks.Observation.Accepted.{observation_fits}
use stacks.Observation.Claims.{status_valid, only_space, role_valid}
use stacks.Temporal.Plans.Accepted.{plan_fits}
use stacks.Temporal.Plans.{second_starts_later, intent_valid, cutoff_of, scope_invalid}
use stacks.Temporal.Aggregation.Reported.{counts_for}
use stacks.Temporal.Aggregation.Counting.{counted}
use stacks.Temporal.Eligibility.{
  recorded_time_eligible, valid_time_eligibility, point_valid_time_eligibility,
  observation_has_supporting_evidence,
}
use stacks.Temporal.Aggregation.{
  observations_equal, new_fact_accumulator, absorb_link, absorb_links, absorb, merge_candidate,
  new_key_accumulator, classify, admit, is_selected, group_candidate, collect_candidate,
  collect_step, collect, aggregate_candidates, sorted_accumulator_values, accumulator_fact,
  no_alternative_values, resolved_value, group_facts, group_unresolved, summarize_ordered,
  summarize_groups, aggregate_window, reconstruct_state,
}

unfoldable pub aggregation : Unit {0}
unfolding bytes pair_cmp list_cmp member add find store sort_on any all trim_space is_zero kind
    candidate_matches_observation validate_state_key term_maps_to_state compare_terms
    identity_for_term identity_for_state_key cutoff_of scope_invalid recorded_time_eligible
    valid_time_eligibility point_valid_time_eligibility observation_has_supporting_evidence
    observations_equal new_fact_accumulator absorb_link absorb_links absorb merge_candidate
    new_key_accumulator classify admit is_selected group_candidate collect_candidate collect_step
    collect aggregate_candidates sorted_accumulator_values accumulator_fact no_alternative_values
    resolved_value group_facts group_unresolved summarize_ordered summarize_groups aggregate_window
    reconstruct_state
aggregation = tt

pub aggregate_window-sample :
    aggregate_window whole_window everything_known (second ∷ first ∷ [])
    ≡ ok (engineer_summary whole_window)
unfolding aggregation
aggregate_window-sample = refl

pub reconstruct_state-sample :
    reconstruct_state one_point everything_known (first ∷ second ∷ rival ∷ [])
    ≡ ok (engineer_summary one_point)
unfolding aggregation
reconstruct_state-sample = refl

pub counted-sample :
    any (counts_for (identity_for_state_key key)) (
      counted everything_known
        (valid_time_eligibility whole_window.start whole_window.end)
        []
        (second ∷ first ∷ []))
    ≡ true
unfolding aggregation counted
counted-sample = refl

pub aggregate_candidates-sample :
    aggregate_candidates everything_known
      (valid_time_eligibility whole_window.start whole_window.end)
      (second ∷ first ∷ member_of ∷ [])
    ≡ ok sample_groups
unfolding aggregation
aggregate_candidates-sample = refl

pub plan_fits-sample : plan_fits plan_input ≡ true
unfolding aggregation intent_valid is_empty second_starts_later length
plan_fits-sample = refl

pub observation_fits-sample : observation_fits (observation_input two_links) ≡ true
unfolding aggregation is_empty role_valid only_space status_valid
observation_fits-sample = refl

pub one_microsecond : unix_micro (normalize (moment 1500)) ≡ unix_micro (normalize (moment 1001))
unfolding normalize is_zero unix_micro
one_microsecond = refl

pub fields_fit : All FitsWord (string (bytes "a") ∷ uint64 7 ∷ [])
unfolding aggregation length payload put_uint64
fields_fit = (omega arith, (omega arith, tt))

pub text_canonical : validate_canonical_term (text_term (bytes "a")) ≡ ok tt
unfolding aggregation validate_canonical_term validate_term is_empty
text_canonical = refl

pub key_valid : validate_state_key key ≡ ok tt
unfolding aggregation validate_canonical_term validate_term is_empty
key_valid = refl

pub key_before_team : compare_state_keys key team ≡ Ordering.lt
unfolding aggregation compare_state_keys
key_before_team = refl

pub team_before_tenure :
    compare_state_keys team (record team { predicate = bytes "tenure" }) ≡ Ordering.lt
unfolding aggregation compare_state_keys
team_before_tenure = refl

pub compare_window_summaries-sample :
    compare_window_summaries (engineer_summary whole_window) director_summary ≡ ok role_change
unfolding aggregation compare_window_summaries validate_summary collect_facts validate_fact
    normalize_ids collect_ids collect_unresolved validate_canonical_term validate_term all_keys
    store_fact_keys store_unresolved_keys order_keys ordered_facts ordered_unresolved
    collect_changes key_change change_of key_unresolved collect_unresolved_keys
compare_window_summaries-sample = refl
