-- ===== src/Campaign/Engine.antt =====
-- intelligence/campaign-engine.ts: whether a candidate may enter a campaign, and the items of the
-- review queue. A fit score that is not finite or is below zero is `some none`, one that is missing
-- is `none`. `text_le` is the order of `Array.prototype.sort`; `nfkc` and `to_lower_case` are the
-- methods of strings.
use vocation_os.Prelude.{
  ℕ, ◌+◌, ◌*◌, Bool, true, false, not, ◌&&◌, ◌||◌, List, [], ◌∷◌, ◌++◌, map, Option, none, some,
  String, ltb, leb, ◌==◌, ◌===◌, if◌then◌else◌, length, includes, any, Result, ok, ◌>>=◌, ◌>>◌,
  guard, throw_if, or_throw, is_empty, sort_by, unique,
}
use vocation_os.Runtime.{Platform}
use vocation_os.Hash.{Json, str, arr, obj, Items, nil, cons, end, field, sha256, stringify}
use vocation_os.Text.{trim, is_truthy}
use vocation_os.Campaign.{full_score}

-- `CAMPAIGN_CANDIDATE_HARD_GATES`
abbrev pub candidate_hard_gates : List String
candidate_hard_gates =
    "posting-not-live" ∷ "eligibility-unresolved" ∷ "licensing-sensitive" ∷ "license-unverified"
    ∷ "work-authorization-unresolved" ∷ "evidence-missing" ∷ "high-stakes-review-unresolved"
    ∷ "duplicate-opportunity" ∷ "already-submitted" ∷ []

pub record CampaignPolicy : Type 0 where
  pub campaign_id : String
  pub profile_id : String
  pub minimum_fit_score : ℕ
  pub max_active_opportunities : ℕ
  pub max_new_per_day : ℕ
  pub max_per_company : ℕ
  pub max_per_provider : ℕ
  pub cooldown_hours : ℕ
  pub follow_up_after_days : List ℕ
  pub excluded_companies : List String
  pub excluded_providers : List String
  pub allowed_route_types : List String
  pub policy_version : String

pub record CampaignUsage : Type 0 where
  pub active_count : ℕ
  pub added_today : ℕ
  pub company_counts : List (String × ℕ)
  pub provider_counts : List (String × ℕ)
  pub last_action_at : Option String

pub record CampaignCandidate : Type 0 where
  pub opportunity_id : String
  pub company : String
  pub provider_id : String
  pub route_type : String
  pub fit_score : Option (Option ℕ)
  pub hard_gate_failures : List String
  pub review_reasons : List String

pub data DecisionStatus : Type 0 where
  eligible review blocked : DecisionStatus

pub record CampaignDecision : Type 0 where
  pub opportunity_id : String
  pub status : DecisionStatus
  pub blocked_by : List String
  pub review_reasons : List String
  pub policy_version : String
  pub evidence_pointers : List String
  pub decision_hash : String

pub data EngineError : Type 0 where
  identity_missing minimum_score_invalid follow_up_invalid follow_up_duplicated : EngineError
  limit_invalid usage_invalid hard_gate_unsupported last_action_invalid : EngineError
  reasons_missing evidence_missing item_final snooze_invalid : EngineError

-- The inputs of a decision as `stableStringify` sees them.
pub record InputJson : Type 0 where
  pub policy_json : CampaignPolicy → Json
  pub usage_json : CampaignUsage → Json
  pub candidate_json : CampaignCandidate → Json

abbrev pub Outcome : Type 0 → Type 0
Outcome A = Result EngineError A

-- `Number.isSafeInteger(value)` of a whole number.
abbrev is_safe : ℕ → Bool
is_safe n = leb n 9_007_199_254_740_991

-- `counts[name] ?? 0`
unfoldable pub count_of : List (String × ℕ) → String → ℕ
count_of [] name = 0
count_of (c ∷ cs) name = let rest = count_of cs name in if c.0 === name then c.1 else rest

abbrev pub code_if : Bool → String → List String
code_if true code = code ∷ []
code_if false code = []

unfoldable pub validate_campaign_policy : CampaignPolicy → Outcome (Unit {0})
validate_campaign_policy policy = do
  guard
      (is_truthy (trim policy.campaign_id)
        && is_truthy (trim policy.profile_id)
        && is_truthy (trim policy.policy_version))
      identity_missing
  guard (leb policy.minimum_fit_score full_score) minimum_score_invalid
  guard
      (is_safe policy.max_active_opportunities
        && is_safe policy.max_new_per_day
        && is_safe policy.max_per_company
        && is_safe policy.max_per_provider
        && is_safe policy.cooldown_hours)
      limit_invalid
  throw_if (any (λ day. not (is_safe day) || ltb day 1) policy.follow_up_after_days)
      follow_up_invalid
  guard (length (unique ◌==◌ policy.follow_up_after_days) == length policy.follow_up_after_days)
      follow_up_duplicated

abbrev pub texts_json : List String → Items
texts_json [] = nil
texts_json (x ∷ xs) = cons (str x) (texts_json xs)

abbrev status_text : DecisionStatus → String
status_text eligible = "eligible"
status_text review = "review"
status_text blocked = "blocked"

-- The codes of the score.
abbrev pub score_codes : Option (Option ℕ) → (minimum : ℕ) → List String
score_codes none minimum = "campaign-fit-score-missing" ∷ []
score_codes (some none) minimum = "campaign-fit-score-below-threshold" ∷ []
score_codes (some (some score)) minimum =
    code_if (ltb score minimum) "campaign-fit-score-below-threshold"

-- `[...new Set(xs)].sort()`
unfoldable pub sorted_set : (text_le : String → String → Bool) → List String → List String
sorted_set text_le xs = sort_by text_le (unique (λ x y. x === y) xs)

abbrev pub status_of : (blocked_by review_reasons : List String) → DecisionStatus
status_of blocked_by review_reasons =
    if not (is_empty blocked_by)
    then blocked
    else if not (is_empty review_reasons)
    then review
    else eligible

module _ (nfkc to_lower_case : String → String) where
  unfoldable pub normalized : String → String
  normalized value = to_lower_case (trim (nfkc value))

  -- What is pushed to `blockedBy` after the hard gates, up to the cooldown.
  unfoldable pub policy_codes : CampaignPolicy → CampaignUsage → CampaignCandidate → List String
  policy_codes policy usage c =
      let company = normalized c.company in
      let provider = normalized c.provider_id in
      code_if (includes (map normalized policy.excluded_companies) company)
        "campaign-company-excluded"
      ++ code_if (includes (map normalized policy.excluded_providers) provider)
          "campaign-provider-excluded"
      ++ code_if (not (includes policy.allowed_route_types c.route_type))
          "campaign-route-type-excluded"
      ++ score_codes c.fit_score policy.minimum_fit_score
      ++ code_if (leb policy.max_active_opportunities usage.active_count)
          "campaign-active-limit-exhausted"
      ++ code_if (leb policy.max_new_per_day usage.added_today) "campaign-daily-limit-exhausted"
      ++ code_if (leb policy.max_per_company (count_of usage.company_counts company))
          "campaign-company-limit-exhausted"
      ++ code_if (leb policy.max_per_provider (count_of usage.provider_counts provider))
          "campaign-provider-limit-exhausted"

module _ (p : Platform) where
  -- `now - lastActionAt < cooldownHours * 3_600_000`
  unfoldable pub cooldown_codes : CampaignPolicy → Option String → (now : ℕ) → Outcome (List String)
  cooldown_codes policy none now = ok []
  cooldown_codes policy (some at) now = do
    last ← or_throw (p.parse_date at) last_action_invalid
    ok (code_if (ltb now (last + policy.cooldown_hours * 3_600_000)) "campaign-cooldown-active")

  -- The decision that the sorted codes and reasons make, with its hashes.
  unfoldable pub decision :
      InputJson
      → CampaignPolicy
      → CampaignUsage
      → CampaignCandidate
      → (now : ℕ) → (blocked_by review_reasons : List String) → CampaignDecision
  decision json policy usage c now blocked_by review_reasons =
      let status = status_of blocked_by review_reasons in
      let pointer = sha256 p (
        stringify p (
          obj (
            field "policy" (json.policy_json policy) (
              field "usage" (json.usage_json usage) (
                field "candidate" (json.candidate_json c)
                  (field "evaluatedAt" (str (p.to_iso_string now)) end)))))) in
      record {
        opportunity_id = c.opportunity_id;
        status = status;
        blocked_by = blocked_by;
        review_reasons = review_reasons;
        policy_version = policy.policy_version;
        evidence_pointers = pointer ∷ [];
        decision_hash = sha256 p (
            stringify p (
              obj (
                field "opportunityId" (str c.opportunity_id) (
                  field "status" (str (status_text status)) (
                    field "blockedBy" (arr (texts_json blocked_by)) (
                      field "reviewReasons" (arr (texts_json review_reasons)) (
                        field "policyVersion" (str policy.policy_version)
                          (field "evidencePointers" (arr (texts_json (pointer ∷ []))) end))))))));
      }

module _ (p : Platform) (text_le : String → String → Bool)
    (nfkc to_lower_case : String → String) where
  -- `evaluateCampaignCandidate`
  unfoldable pub evaluate_campaign_candidate :
      InputJson
      → CampaignPolicy
      → CampaignUsage
      → CampaignCandidate
      → (now : ℕ) → Outcome CampaignDecision
  evaluate_campaign_candidate json policy usage c now = do
    validate_campaign_policy policy
    guard (is_safe usage.active_count && is_safe usage.added_today) usage_invalid
    throw_if (any (λ gate. not (includes candidate_hard_gates gate)) c.hard_gate_failures)
        hard_gate_unsupported
    cooling ← cooldown_codes p policy usage.last_action_at now
    ok (
        decision p json policy usage c now
          (sorted_set text_le (
            unique (λ x y. x === y) c.hard_gate_failures
            ++ policy_codes nfkc to_lower_case policy usage c
            ++ cooling))
          (sorted_set text_le c.review_reasons))
