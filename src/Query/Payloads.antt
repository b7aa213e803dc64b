-- ===== src/Query/Payloads.antt =====
-- internal/query/projection.go: the results of the intents that compare states, `projectTrend`,
-- `projectPoint` and `projectTrajectory`, and their gaps.
use stacks.Base.{List, [], ◌∷◌, Option, some, none, Text, Result, ok, ◌>>=◌}
use stacks.Observation.Extents.{TemporalExtent}
use stacks.Temporal.Terms.{StateKey, StateCandidate}
use stacks.Temporal.Plans.{TemporalSelection}
use stacks.Temporal.Aggregation.{Summary, UnresolvedFact}
use stacks.Temporal.Comparison.{Change, Comparison}
use stacks.Temporal.Trajectory.{Transition}
use stacks.Query.Snapshots.{ReadSnapshot, ProjectionIndex}
use stacks.Query.Projections.{
  CitedFact, UnresolvedItem, WindowResult, project_fact_pointer, project_unresolved, project_window,
}
use stacks.Query.StateGaps.{Gap, project_state_gaps}

pub record CitedChange : Type 0 where
  pub kind : Text
  pub key : StateKey
  pub before : Option CitedFact
  pub after : Option CitedFact

pub record TrendResult : Type 0 where
  pub before : WindowResult
  pub after : WindowResult
  pub changes : List CitedChange
  pub unresolved_keys : List StateKey

pub record CitedTransition : Type 0 where
  pub kind : Text
  pub key : StateKey
  pub valid_time : TemporalExtent
  pub before : Option CitedFact
  pub after : Option CitedFact
  pub unresolved : List UnresolvedItem

pub record TrajectoryResult : Type 0 where
  pub selection : TemporalSelection
  pub transitions : List CitedTransition
  pub unresolved : List UnresolvedItem

-- The loop over the changes.
unfoldable pub project_changes : List Change → ProjectionIndex → Result (List CitedChange)
project_changes [] index = ok []
project_changes (change ∷ changes) index = do
  before ← project_fact_pointer change.before index
  after ← project_fact_pointer change.after index
  rest ← project_changes changes index
  ok (record { kind = change.kind; key = change.key; before = before; after = after } ∷ rest)

unfoldable pub project_trend : Comparison → ProjectionIndex → Result TrendResult
project_trend comparison index = do
  before ←
      project_window
        (record {
          selection = comparison.before;
          facts = comparison.before_facts;
          unresolved = comparison.before_unresolved;
        })
        index
  after ←
      project_window
        (record {
          selection = comparison.after;
          facts = comparison.after_facts;
          unresolved = comparison.after_unresolved;
        })
        index
  changes ← project_changes comparison.changes index
  ok (record {
    before = before;
    after = after;
    changes = changes;
    unresolved_keys = comparison.unresolved_keys;
  })

-- A point has the result of a window, with its own selection.
abbrev pub project_point : Summary → ProjectionIndex → Result WindowResult
project_point = project_window

-- The loop over the transitions.
unfoldable pub project_transitions :
    List Transition → ProjectionIndex → Result (List CitedTransition)
project_transitions [] index = ok []
project_transitions (value ∷ values) index = do
  before ← project_fact_pointer value.before_fact index
  after ← project_fact_pointer value.after_fact index
  unresolved ← project_unresolved value.unresolved index
  rest ← project_transitions values index
  ok (
      record {
        kind = value.kind;
        key = value.key;
        valid_time = value.valid_time;
        before = before;
        after = after;
        unresolved = unresolved;
      }
      ∷ rest)

unfoldable pub project_trajectory :
    TemporalSelection
    → List Transition
    → List UnresolvedFact
    → ProjectionIndex
    → Result TrajectoryResult
project_trajectory selection values unresolved index = do
  transitions ← project_transitions values index
  projected ← project_unresolved unresolved index
  ok (record { selection = selection; transitions = transitions; unresolved = projected })

module _ (requested : List Text) (snapshot : ReadSnapshot) (candidates : List StateCandidate) where
  abbrev pub project_trend_gaps : Summary → Summary → Result (List Gap)
  project_trend_gaps before after =
      project_state_gaps requested snapshot candidates (before ∷ after ∷ []) none

  abbrev pub project_point_gaps : Summary → Result (List Gap)
  project_point_gaps summary =
      project_state_gaps requested snapshot candidates (summary ∷ []) (some summary.selection)

  abbrev pub project_trajectory_gaps : Summary → Result (List Gap)
  project_trajectory_gaps summary =
      project_state_gaps requested snapshot candidates (summary ∷ []) (some summary.selection)
