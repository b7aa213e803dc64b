-- ===== src/Query/Accepted.antt =====
-- What `NormalizeRequest` accepts and returns (internal/query/contract.go).
use stacks.Base.{
  ◌≡◌, refl, sym, ap, ◌∙◌, true, false, not, ◌&&◌, List, Text, same, text_order, is_empty, ok,
  >>=-eq-ok, arith, length, if◌then◌else◌, refuse->>-eq-ok, wrap, wrap-eq-ok, bytes, Result, refuse,
  ◌>>=◌, ◌>>◌, [], ◌∷◌,
}
use mathlib.Core.Path.{subst, subst₂}
use stacks.Encodings.Ints.{ℤ, pos, less}
use stacks.Temporal.Plans.{PlanInput, Plan, new_plan, intent_causal_chain}
use stacks.Query.Requests.{
  Limits, Request, validate_limits, normalize_entity_ids, normalize_predicates,
  validate_intent_limit, not_causal, normalize_request, entity_match_all, entity_match_any,
}
use stacks.Query.Canonical.{canonical}
use stacks.Query.Renormalized.{
  entity_ids_fit, predicates_fit, normalize_entity_ids-eq-ok, normalize_predicates-eq-ok,
  entity_ids_again, predicates_again,
}

abbrev pub chosen_match : Text → Text
chosen_match match = if is_empty match then entity_match_all else match

-- A request with these lists, and with the default for an empty entity match.
abbrev pub with_lists : Request → List Text → List Text → Request
with_lists request entity_ids predicates = record {
  intent = request.intent;
  entity_ids = entity_ids;
  entity_match = chosen_match request.entity_match;
  predicates = predicates;
  selections = request.selections;
  knowledge_scope = request.knowledge_scope;
  limit = request.limit;
}

-- The normal form of a request.
abbrev pub normalized : Request → Request
normalized request =
    with_lists request (canonical request.entity_ids) (canonical request.predicates)

abbrev pub plan_input : Request → PlanInput
plan_input request = record {
  intent = request.intent;
  entity_ids = request.entity_ids;
  selections = request.selections;
  knowledge_scope = request.knowledge_scope;
}

-- What is asked of a normal form, apart from the sizes of its lists.
pub record IsRequest (request : Request) (maximum : ℤ) : Type 0 where
  pub known_match :
      (not (same request.entity_match entity_match_all)
        && not (same request.entity_match entity_match_any))
      ≡ false
  pub plan : Plan
  pub planned : new_plan (plan_input request) ≡ ok plan
  pub limited : validate_intent_limit request.intent request.limit maximum ≡ ok tt
  pub causal : (same request.intent intent_causal_chain && not_causal request.predicates) ≡ false

-- What follows the two lists in `NormalizeRequest`.
abbrev checks : Request → ℤ → Result Request
checks request maximum = do
  refuse
      (not (same request.entity_match entity_match_all)
        && not (same request.entity_match entity_match_any))
      "query entity match is invalid"
  plan ← wrap "validate temporal query: %w" (new_plan (plan_input request))
  validate_intent_limit request.intent request.limit maximum
  refuse (same request.intent intent_causal_chain && not_causal request.predicates)
      "causal query requires the exact causal predicate"
  ok request

checks-eq-ok :
    (request : Request) (maximum : ℤ) (result : Request)
    → checks request maximum ≡ ok result
    → (request ≡ result) × IsRequest request maximum
checks-eq-ok request maximum result h =
    let (known, h1) =
      refuse->>-eq-ok
        (not (same request.entity_match entity_match_all)
          && not (same request.entity_match entity_match_any))
        _ _ h in
    let (plan, p, h2) = >>=-eq-ok _ _ h1 in
    let (u, limited, h3) =
      >>=-eq-ok (validate_intent_limit request.intent request.limit maximum) _ h2 in
    let (causal, h4) =
      refuse->>-eq-ok (same request.intent intent_causal_chain && not_causal request.predicates) _ _
        h3 in
    let done : ◌≡◌ {A = Result Request} (ok request) (ok result) = h4 in
    let this : request ≡ result = cc in
    (
      this,
      record {
        known_match = known;
        plan = plan;
        planned = wrap-eq-ok _ (new_plan (plan_input request)) p;
        limited = limited;
        causal = causal;
      },
    )

checks_accepts :
    (request : Request) (maximum : ℤ)
    → IsRequest request maximum
    → checks request maximum ≡ ok request
checks_accepts request maximum r = rw (r.known_match, r.planned, r.limited, r.causal) refl

-- A request that is accepted has valid limits, entity identifiers and predicates that fit them, and
-- gives its normal form, which is a valid request.
pub normalize_request-eq-ok :
    (request : Request) (limits : Limits) (result : Request)
    → normalize_request request limits ≡ ok result
    → (result ≡ normalized request)
      × (validate_limits limits ≡ ok tt)
      × (entity_ids_fit request.entity_ids limits.max_entities ≡ true)
      × (predicates_fit request.predicates limits.max_predicates ≡ true)
      × IsRequest (normalized request) limits.max_chronology
unfolding normalize_request
normalize_request-eq-ok request limits result h =
    let (u, positive, h1) = >>=-eq-ok (validate_limits limits) _ h in
    let (ids, i, h2) =
      >>=-eq-ok (normalize_entity_ids request.entity_ids limits.max_entities) _ h1 in
    let (same_ids, ids_fit) =
      normalize_entity_ids-eq-ok request.entity_ids limits.max_entities ids i in
    let (ps, p, h3) =
      >>=-eq-ok (normalize_predicates request.predicates limits.max_predicates) _ h2 in
    let (same_ps, ps_fit) =
      normalize_predicates-eq-ok request.predicates limits.max_predicates ps p in
    let (built, valid) = checks-eq-ok (with_lists request ids ps) limits.max_chronology result h3 in
    (
      sym built ∙ cc (same_ids, same_ps),
      positive,
      ids_fit,
      ps_fit,
      subst₂ (λ is qs. IsRequest (with_lists request is qs) limits.max_chronology) same_ids same_ps
          valid,
    )

-- A limit on the chronology that was accepted is accepted under every maximum that it fits.
validate_intent_limit_fits :
    (intent : Text) (limit maximum other : ℤ)
    → validate_intent_limit intent limit maximum ≡ ok tt
    → less other limit ≡ false
    → validate_intent_limit intent limit other ≡ ok tt
unfolding validate_intent_limit
validate_intent_limit_fits intent limit maximum other h k = ground arith

match_nonempty : (match : Text) → is_empty (chosen_match match) ≡ false
unfolding bytes
match_nonempty [] = refl
match_nonempty (b ∷ match) = refl

chosen_match_again : (match : Text) → chosen_match (chosen_match match) ≡ chosen_match match
chosen_match_again match =
    ap (λ e. if e then entity_match_all else chosen_match match) (match_nonempty match)

normalized_again :
    (request : Request) (limits others : Limits)
    → entity_ids_fit request.entity_ids limits.max_entities ≡ true
    → predicates_fit request.predicates limits.max_predicates ≡ true
    → IsRequest (normalized request) limits.max_chronology
    → validate_limits others ≡ ok tt
    → less others.max_entities (pos (length (canonical request.entity_ids))) ≡ false
    → less others.max_predicates (pos (length (canonical request.predicates))) ≡ false
    → less others.max_chronology request.limit ≡ false
    → normalize_request (normalized request) others ≡ ok (normalized request)
unfolding normalize_request
normalized_again request limits others ids ps valid positive few_ids few_ps low =
    let valid' : IsRequest (normalized request) others.max_chronology = record {
      known_match = valid.known_match;
      plan = valid.plan;
      planned = valid.planned;
      limited =
          validate_intent_limit_fits request.intent request.limit limits.max_chronology
            others.max_chronology valid.limited low;
      causal = valid.causal;
    } in
    rw
      (
        positive,
        entity_ids_again request.entity_ids limits.max_entities others.max_entities ids few_ids,
        predicates_again request.predicates limits.max_predicates others.max_predicates ps few_ps,
        chosen_match_again request.entity_match,
      )
      (checks_accepts (normalized request) others.max_chronology valid')

-- A request that is accepted under some limits gives a normal form that is accepted as it is, under
-- all limits that it fits.
pub normalize_request_again :
    (request : Request) (limits others : Limits) (result : Request)
    → normalize_request request limits ≡ ok result
    → validate_limits others ≡ ok tt
    → less others.max_entities (pos (length result.entity_ids)) ≡ false
    → less others.max_predicates (pos (length result.predicates)) ≡ false
    → less others.max_chronology result.limit ≡ false
    → normalize_request result others ≡ ok result
normalize_request_again request limits others result h positive few_ids few_ps low =
    let (built, ok_limits, ids, ps, valid) = normalize_request-eq-ok request limits result h in
    subst (λ r. normalize_request r others ≡ ok r) (sym built)
      (normalized_again request limits others ids ps valid positive (rw built at few_ids)
        (rw built at few_ps) (rw built at low))
