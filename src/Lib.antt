-- ===== src/Lib.antt =====
-- A model of the core of Stacks: documents and the spans of them that serve as evidence,
-- observations, the identity of the persons they mention, the temporal state that is derived from
-- them (the module `core` of the repository), and the part of internal/query that normalizes a
-- request and turns a read snapshot into cited results.
--
-- The parts, and the files that model them:
--
-- * `Timepoint` (core/timepoint/timepoint.go). An instant is a number of nanoseconds; `normalize` is
--   `Normalize`. `Timepoint/Laws` has its laws.
-- * `CanonicalHash` (core/internal/canonicalhash/encoder.go). An encoder is the list of the fields
--   that it was given, and `preimage` the bytes that reach SHA-256. `CanonicalHash/Boundaries` is
--   about these bytes.
-- * `Observation` (core/observation). `Observation/Terms` is term.go, `Observation/Extents` time.go,
--   `Observation/Confidences` confidence.go, `Observation/Digests` digest.go and
--   `Observation/Claims` observation.go with `NewObservation`. `Observation/Links` and
--   `Observation/Accepted` are about what the constructor accepts and returns.
-- * `Temporal` (core/temporal). `Temporal/Terms` is state.go, `Temporal/Plans` plan.go,
--   `Temporal/Eligibility` the tests on extents of aggregation.go, point.go and trajectory.go.
--   `Temporal/Aggregation` is the rest of aggregation.go and `ReconstructState` of point.go,
--   `Temporal/Comparison` comparison.go, `Temporal/Trajectory` trajectory.go and `Temporal/Causal`
--   causal.go.
-- * `Evidence` (core/evidence). `Evidence/Contents` is evidence.go, `Evidence/Sections` section.go,
--   `Evidence/Revisions` revision.go, `Evidence/Documents` and `Evidence/Spans` the two halves of
--   document.go. `Evidence/Slices` and `Evidence/Quotes` are about a span and the text it quotes,
--   `Evidence/Uniqueness`, `Evidence/Accepted` and `Evidence/Retries` about what the constructors
--   accept and return.
-- * `Admission` (core/admission and core/internal/reasoncode) has the admission decisions.
-- * `Identity` (core/identity). `Identity/Names` and `Identity/Values` are identity.go,
--   `Identity/Records` authority.go, `Identity/Resolver` resolver.go with the division of
--   `nameConfidence` in `Identity/Ratios`. `Identity/Matches`, `Identity/Ranking`,
--   `Identity/Listed`, `Identity/Orderings` and `Identity/Bounds` are about the resolver.
-- * `Query` (internal/query). `Query/Requests` and `Query/Snapshots` are contract.go, with the
--   types of result.go that the projection fills; `Query/Authority`, `Query/Resolved`,
--   `Query/Indexing`, `Query/Projections`, `Query/Payloads`, `Query/Gaps` and `Query/StateGaps` are
--   projection.go. The other modules under `Query` are about these.
-- * `Encodings` has what the source uses of Go's integers, of UTF-8 and of hexadecimal text.
--
-- How they interact: an observation is built by `new_observation` and never changed; a candidate
-- pairs it with a state key and a value. `aggregate_candidates` is the loop that groups the
-- candidates, with the selection of valid time as an argument, as in the source:
-- `aggregate_window`, `reconstruct_state` and `build_trajectory` call it with three different
-- tests. `summarize_groups` turns its groups into facts and unresolved facts, which
-- `compare_window_summaries` and `diff_trajectory_state` compare.
-- `Temporal/Aggregation/Provenance`, `Measures`, `Counting`, `Keyed`, `Values`, `Resolved`,
-- `GroupKeys` and `Reported` follow one candidate, the loop and a summary in turn: a counted
-- candidate is one whose observation was not met before, recorded in time, valid in the selection
-- and not rejected. `Temporal/Comparison/Maps`, `Keys` and `Differences` follow the maps, the keys
-- and the result of a comparison, `Temporal/Trajectory/Transitions` the difference of two adjacent
-- states, and `Temporal/Plans/Accepted` the checks of `NewPlan`.
-- An observation links evidence by the identifier that `new_evidence_span` computes from the
-- coordinates of a span. `index_snapshot` reads the observations of a snapshot with their citations
-- and builds state candidates for the functions of `Temporal`, and an index; `project_fact` and its
-- callers look the identifiers of a fact up in that index.
--
-- Representation:
--
-- * A Go string is the list of its bytes (`Text`); `trim_space` is `strings.TrimSpace`, written for
--   the white-space runes in UTF-8. Named string types (identifiers, statuses, roles, predicates)
--   are texts.
-- * An error is named by the format string of its `fmt.Errorf`. An error that wraps another has the
--   inner name in core/observation and core/temporal, and the outer name elsewhere (`wrap`). A
--   function that may fail returns `Result`.
-- * An instant is the number of nanoseconds since the earliest instant of `time.Time`, so that every
--   instant is a number; the zero time is `zero_time`. Locations and monotonic readings are left
--   out: `Normalize` erases both.
-- * A float64 is its bit pattern: the code compares it with 0 and 1, compares confidences that are not
--   negative, whose patterns have the order of the values, and hashes its bits.
-- * SHA-256 is a parameter of the functions that use it (`sha256`); a digest is a text. The normal
--   form NFKC, `strings.ToLower` and `mail.ParseAddress` are the parameters of `TextRules`.
-- * A Go int is an integer (`ℤ`), and `to_uint64` wraps it at `2 ^ 64` as the conversion does.
-- * The quotient of `nameConfidence` is the nearest double of a ratio in (0, 1), half to even. Its
--   exponent is searched for with 64 steps: a ratio of numbers of words below `2 ^ 53` is at least
--   `2 ^ -53`, so the search ends within them.
-- * A map is an association list. Where the source sorts the entries of a map, whose order Go leaves
--   open, the model sorts by insertion; `Base/Sorting` and `Temporal/Aggregation/Iteration` are about
--   the order of the entries.
-- * Pointers that the source clones before it stores them are values.
-- * Every loop but that search runs over a list, so no fuel is needed, and every function is total.
--
-- `Base` has the shared helpers: results, orders, maps, sorting, texts and lemmas on lists. `Tests`
-- has sample observations, runs of the functions on them, and the properties at these samples.
--
-- Not modelled: of internal/query, result.go but for its types and `validateCitation`,
-- result_validation.go, order.go but for the orders used here, and service.go; the query planner
-- (internal/queryplan); ingestion, extraction and the directory (internal/ingest,
-- internal/extract, internal/directory); and what is mostly input and output: adapters/postgres,
-- cmd, internal/cli, internal/config, internal/app, internal/doctor, the model providers, the
-- Google clients and telemetry. Getters that return a field are fields.
pub mod Base
pub mod Timepoint
pub mod CanonicalHash
pub mod Encodings
pub mod Evidence
pub mod Admission
pub mod Identity
pub mod Query
pub mod Observation
pub mod Temporal
pub mod Tests
