-- ===== src/Campaign.antt =====
-- intelligence/campaign-policy.ts and what it uses of intelligence/assertions.ts: which of the
-- candidates of a campaign are queued for review today, and why the others are not.
-- A score is a number of units, so small that every double from 0 to 100 is a whole number of them.
-- Limits and quotas are whole numbers: the code refuses all others, and scores outside the range.
pub mod Bounds
pub mod Queue
pub mod Normalized
pub mod Gated
pub mod Engine
pub mod Decided
pub mod Review
pub mod Reviewed
use vocation_os.Prelude.{
  ℕ, zero, suc, ◌+◌, ◌*◌, ◌^◌, Bool, true, false, not, ◌&&◌, ◌||◌, List, [], ◌∷◌, ◌++◌, map, Option,
  none, some, String, ltb, leb, ◌==◌, ◌===◌, if◌then◌else◌, length, includes, keep, all, Result, ok,
  err, ◌>>=◌, ◌>>◌, guard, throw_if, sort_by, unique,
}
use vocation_os.Runtime.{Platform}
use vocation_os.Text.{trim, is_truthy}

pub data RouteType : Type 0 where
  job fellowship postdoc grant consulting teaching speaking publishing venture : RouteType

-- `CAMPAIGN_HARD_GATES`
pub data HardGate : Type 0 where
  posting_not_live eligibility_unresolved license_unverified : HardGate
  work_authorization_unresolved evidence_missing high_stakes_review_unresolved : HardGate
  duplicate_opportunity already_submitted : HardGate

pub data Confidence : Type 0 where
  high medium low : Confidence

pub data DispositionStatus : Type 0 where
  queued hard_gated below_threshold deferred not_member : DispositionStatus

pub data Basis : Type 0 where
  evidence_basis policy_basis calculation_basis : Basis

pub record CampaignReviewCandidate : Type 0 where
  pub opportunity_id : String
  pub route_type : RouteType
  pub quality_score : Option ℕ
  pub confidence : Confidence
  pub hard_gates : List HardGate
  pub evidence_refs : List String

pub record CampaignReviewPolicy : Type 0 where
  pub policy_version : String
  pub minimum_quality_score : ℕ
  pub daily_review_limit : ℕ
  pub route_review_quotas : RouteType → Option ℕ

pub record IntelligenceAssertion : Type 0 where
  pub code : String
  pub basis : Basis
  pub evidence_refs : List String

pub record Disposition : Type 0 where
  pub opportunity_id : String
  pub status : DispositionStatus
  pub reason_code : String
  pub queue_position : Option ℕ
  pub review_required : Bool
  pub evidence_refs : List String
  pub assertions : List IntelligenceAssertion

pub record Campaign : Type 0 where
  pub campaign_id : String
  pub opportunity_ids : List String

pub record CampaignReviewQueue : Type 0 where
  pub campaign_id : String
  pub policy_version : String
  pub generated_at : String
  pub entries : List Disposition
  pub dispositions : List Disposition
  pub assertions : List IntelligenceAssertion

pub data CampaignError : Type 0 where
  policy_version_missing minimum_score_invalid daily_limit_invalid : CampaignError
  route_quota_invalid : RouteType → CampaignError
  candidates_not_unique candidate_id_missing : CampaignError
  quality_score_invalid evidence_required : String → CampaignError

abbrev pub Outcome : Type 0 → Type 0
Outcome A = Result CampaignError A

-- A hundred points: doubles from 0 to 100 are multiples of 2 ^ -1074.
unfoldable pub full_score : ℕ
full_score = 100 * 2 ^ 1074

abbrev pub all_routes : List RouteType
all_routes =
    job ∷ fellowship ∷ postdoc ∷ grant ∷ consulting ∷ teaching ∷ speaking ∷ publishing ∷ venture
    ∷ []

abbrev pub route_index : RouteType → ℕ
route_index job = 0
route_index fellowship = 1
route_index postdoc = 2
route_index grant = 3
route_index consulting = 4
route_index teaching = 5
route_index speaking = 6
route_index publishing = 7
route_index venture = 8

abbrev pub same_route : RouteType → RouteType → Bool
same_route r s = route_index r == route_index s

abbrev gate_index : HardGate → ℕ
gate_index posting_not_live = 0
gate_index eligibility_unresolved = 1
gate_index license_unverified = 2
gate_index work_authorization_unresolved = 3
gate_index evidence_missing = 4
gate_index high_stakes_review_unresolved = 5
gate_index duplicate_opportunity = 6
gate_index already_submitted = 7

abbrev pub same_gate : HardGate → HardGate → Bool
same_gate g h = gate_index g == gate_index h

-- `CONFIDENCE_RANK`
abbrev pub confidence_rank : Confidence → ℕ
confidence_rank high = 3
confidence_rank medium = 2
confidence_rank low = 1

abbrev pub is_queued : Disposition → Bool
is_queued d = elim d.status [ queued ↦ true | _ ↦ false ]

-- `validateCampaignPolicy`, the quotas of some routes.
check_quotas : CampaignReviewPolicy → List RouteType → Outcome (Unit {0})
check_quotas policy [] = ok tt
check_quotas policy (r ∷ rs) = do
  elim (policy.route_review_quotas r) [
    | none ↦ ok tt
    | some quota ↦ guard (leb 1 quota) (route_quota_invalid r)
  ]
  check_quotas policy rs

unfoldable pub validate_campaign_policy : CampaignReviewPolicy → Outcome (Unit {0})
unfolding check_quotas
validate_campaign_policy policy = do
  guard (is_truthy (trim policy.policy_version)) policy_version_missing
  guard (leb policy.minimum_quality_score full_score) minimum_score_invalid
  guard (leb 1 policy.daily_review_limit) daily_limit_invalid
  check_quotas policy all_routes

module _ (sort_texts : List String → List String) where
  -- `uniqueEvidenceRefs` of one group; `sort_texts` is `Array.prototype.sort` of texts.
  unfoldable pub unique_evidence_refs : List String → List String
  unique_evidence_refs refs = sort_texts (unique (λ x y. x === y) (keep is_truthy (map trim refs)))

  abbrev assertion_refs : Basis → List String → List String
  assertion_refs policy_basis refs = unique_evidence_refs []
  assertion_refs _ refs = unique_evidence_refs refs

  -- `disposition`. `intelligenceAssertion` throws for the other bases only, which are not passed.
  unfoldable pub disposition :
      CampaignReviewCandidate
      → DispositionStatus
      → (reason_code : String) → (queue_position : Option ℕ) → (review_required : Bool) → Basis
      → Disposition
  disposition c status reason_code queue_position review_required basis = record {
    opportunity_id = c.opportunity_id;
    status = status;
    reason_code = reason_code;
    queue_position = queue_position;
    review_required = review_required;
    evidence_refs = c.evidence_refs;
    assertions =
        record {
          code = reason_code;
          basis = basis;
          evidence_refs = assertion_refs basis c.evidence_refs;
        }
        ∷ [];
  }
