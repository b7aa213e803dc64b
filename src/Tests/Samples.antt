-- ===== src/Tests/Samples.antt =====
-- Observations of one entity, and selections over them.
use stacks.Temporal.Comparison.{change_changed, Comparison}
use stacks.Temporal.Aggregation.{KeyAccumulator, Groups, Summary}
use stacks.Temporal.Terms.{
  StateKeyIdentity, identity_for_term, identity_for_state_key, StateKey, StateCandidate, Fact,
}
use stacks.Temporal.Plans.{
  intent_point_in_time, PlanInput, TemporalSelection, KnowledgeScope, selection_point,
  selection_window, knowledge_current,
}
use stacks.Observation.Claims.{
  ObservationInput, Observation, evidence_supporting, evidence_contradicting, status_observed,
}
use stacks.Base.{ℕ, ◌+◌, List, [], ◌∷◌, none, some, Text, bytes}
use stacks.Timepoint.{Time, zero_time}
use stacks.Observation.Terms.{text_term, entity_term}
use stacks.Observation.Extents.{TemporalExtent, instant_at, interval}
use stacks.Observation.Digests.{EvidenceLink}

-- Microseconds after the zero time.
abbrev pub moment : ℕ → Time
moment n = zero_time + n

abbrev pub key : StateKey
key = record { subject = entity_term (bytes "ada") []; predicate = bytes "role" }

abbrev pub link : Text → Text → EvidenceLink
link id role = record { evidence_id = id; role = role }

abbrev pub claim : Text → Text → TemporalExtent → Text → List EvidenceLink → Observation
claim id value extent status links = record {
  id = id;
  content = record {
    statement = record {
      subject = entity_term (bytes "ada") (bytes "m1");
      predicate = bytes "role";
      object = text_term value;
    };
    valid_time = extent;
    recorded_at = moment 9000;
    evidence = links;
    derivation = record {
      method = bytes "extract";
      version = bytes "1";
      run_id = [];
      model = [];
      prompt_version = [];
    };
    status = status;
    confidence = none;
  };
  digest = [];
}

abbrev pub candidate : Text → Text → TemporalExtent → Text → List EvidenceLink → StateCandidate
candidate id value extent status links = record {
  key = key;
  value = text_term value;
  observation = claim id value extent status links;
  subject_grounding_mention_id = bytes "m1";
  object_grounding_mention_id = [];
}

abbrev pub first : StateCandidate
first =
    candidate (bytes "o1") (bytes "engineer") (interval (some (moment 1000)) none) status_observed
      (link (bytes "e1") evidence_supporting ∷ [])

abbrev pub second : StateCandidate
second =
    candidate (bytes "o2") (bytes "engineer") (instant_at (moment 4000)) status_observed
      (link (bytes "e2") evidence_supporting ∷ link (bytes "e3") evidence_contradicting ∷ [])

abbrev pub rival : StateCandidate
rival =
    candidate (bytes "o3") (bytes "director") (instant_at (moment 5000)) status_observed
      (link (bytes "e4") evidence_supporting ∷ [])

abbrev pub whole_window : TemporalSelection
whole_window = record {
  kind = selection_window;
  label = bytes "w";
  start = moment 2000;
  end = moment 8000;
}

abbrev pub one_point : TemporalSelection
one_point = record {
  kind = selection_point;
  label = bytes "p";
  start = moment 4000;
  end = zero_time;
}

abbrev pub everything_known : KnowledgeScope
everything_known = record { kind = knowledge_current; as_of = zero_time }

abbrev pub engineer : Fact
engineer = record {
  key = key;
  value = text_term (bytes "engineer");
  observation_ids = bytes "o1" ∷ bytes "o2" ∷ [];
  supporting_evidence_ids = bytes "e1" ∷ bytes "e2" ∷ [];
  contradicting_evidence_ids = bytes "e3" ∷ [];
}

abbrev pub engineer_summary : TemporalSelection → Summary
engineer_summary selection = record {
  selection = selection;
  facts = engineer ∷ [];
  unresolved = [];
}

-- The groups of the two candidates that agree.
abbrev pub engineer_group : StateKeyIdentity × KeyAccumulator
engineer_group = (
  identity_for_state_key key,
  record {
    key = key;
    supported =
        (
          identity_for_term (text_term (bytes "engineer")),
          record {
            key = key;
            value = text_term (bytes "engineer");
            observations = bytes "o2" ∷ bytes "o1" ∷ [];
            supporting = bytes "e2" ∷ bytes "e1" ∷ [];
            contradicting = bytes "e3" ∷ [];
            extents = instant_at (moment 4000) ∷ interval (some (moment 1000)) none ∷ [];
          },
        )
        ∷ [];
    tentative = [];
    counter_only = [];
    temporal_values = [];
    hypothesis_values = [];
  },
)

abbrev pub plan_input : PlanInput
plan_input = record {
  intent = intent_point_in_time;
  entity_ids = bytes " ada " ∷ bytes "bob" ∷ [];
  selections = one_point ∷ [];
  knowledge_scope = everything_known;
}

abbrev pub observation_input : List EvidenceLink → ObservationInput
observation_input links = record {
  id = bytes " o1";
  statement = record {
    subject = entity_term (bytes "ada") (bytes "m1");
    predicate = bytes "role";
    object = text_term (bytes "engineer");
  };
  valid_time = instant_at (moment 4000);
  recorded_at = moment 9001;
  evidence = links;
  derivation = record {
    method = bytes "extract";
    version = bytes "1";
    run_id = [];
    model = [];
    prompt_version = [];
  };
  status = status_observed;
  confidence = none;
}

abbrev pub two_links : List EvidenceLink
two_links = link (bytes "e2 ") evidence_supporting ∷ link (bytes "e1") evidence_contradicting ∷ []

-- Stands for a hash function.
abbrev pub identity_hash : Text → Text
identity_hash text = text

abbrev pub team : StateKey
team = record { subject = entity_term (bytes "ada") []; predicate = bytes "team" }

abbrev team_claim : Observation
team_claim =
    let base =
      claim (bytes "o4") (bytes "core") (instant_at (moment 4000)) status_observed
        (link (bytes "e5") evidence_contradicting ∷ []) in
    record base {
      content = record base.content {
        statement = record {
          subject = entity_term (bytes "ada") (bytes "m1");
          predicate = bytes "team";
          object = text_term (bytes "core");
        };
      };
    }

-- A candidate of another key, with counterevidence alone.
abbrev pub member_of : StateCandidate
member_of = record {
  key = team;
  value = text_term (bytes "core");
  observation = team_claim;
  subject_grounding_mention_id = bytes "m1";
  object_grounding_mention_id = [];
}

abbrev pub team_group : StateKeyIdentity × KeyAccumulator
team_group = (
  identity_for_state_key team,
  record {
    key = team;
    supported = [];
    tentative = [];
    counter_only =
        (
          identity_for_term (text_term (bytes "core")),
          record {
            key = team;
            value = text_term (bytes "core");
            observations = bytes "o4" ∷ [];
            supporting = [];
            contradicting = bytes "e5" ∷ [];
            extents = instant_at (moment 4000) ∷ [];
          },
        )
        ∷ [];
    temporal_values = [];
    hypothesis_values = [];
  },
)

-- The groups of the candidates, in the order in which they are met.
abbrev pub sample_groups : Groups
sample_groups = engineer_group ∷ team_group ∷ []

abbrev pub later_window : TemporalSelection
later_window = record whole_window { label = bytes "later"; start = moment 8000; end = moment 9000 }

-- A summary of the later window, in which the role has changed.
abbrev pub director_summary : Summary
director_summary = record {
  selection = later_window;
  facts = record engineer { value = text_term (bytes "director") } ∷ [];
  unresolved = [];
}

abbrev pub role_change : Comparison
role_change = record {
  before = whole_window;
  after = later_window;
  before_facts = engineer ∷ [];
  after_facts = record engineer { value = text_term (bytes "director") } ∷ [];
  changes =
      record {
        kind = change_changed;
        key = key;
        before = some engineer;
        after = some (record engineer { value = text_term (bytes "director") });
      }
      ∷ [];
  unresolved_keys = [];
  before_unresolved = [];
  after_unresolved = [];
}
