-- ===== src/Examples/Campaigns.antt =====
-- A campaign with one review of a job a day, and two reviews in all.
use vocation_os.Prelude.{
  ℕ, ◌+◌, ◌≤◌, ◌≡◌, refl, List, [], ◌∷◌, Option, none, some, String, All, length, map, ok, arith,
  insert_by, sort_by, unique,
}
use vocation_os.Text.{trim}
use vocation_os.Campaign.{
  RouteType, job, grant, venture, posting_not_live, high, CampaignReviewCandidate,
  CampaignReviewPolicy, Campaign, CampaignReviewQueue, full_score, validate_campaign_policy,
  unique_evidence_refs, disposition, same_gate,
}
use vocation_os.Campaign.Queue.{
  ranks_before, listed_before, counted_up, normalized_candidate, normalized, set_aside,
  all_set_aside, eligible, verdict, review, dispositions_of, build_campaign_review_queue, queue_of,
}
use vocation_os.Campaign.Bounds.{
  count, zip, is_queued_of, review-route_quota, build_campaign_review_queue-limit,
}
use vocation_os.Campaign.Gated.{IsReviewable, build_campaign_review_queue-IsReviewable}
use vocation_os.Examples.Base.{platform}

abbrev sort_texts : List String → List String
sort_texts xs = sort_by platform.locale_le xs

abbrev offer : String → RouteType → Option ℕ → CampaignReviewCandidate
offer id route score = record {
  opportunity_id = id;
  route_type = route;
  quality_score = score;
  confidence = high;
  hard_gates = [];
  evidence_refs = "E1" ∷ " E1 " ∷ [];
}

abbrev stale : CampaignReviewCandidate
stale = record (offer "O5" grant (some 95)) {
  hard_gates = posting_not_live ∷ posting_not_live ∷ [];
}

abbrev candidates : List CampaignReviewCandidate
candidates =
    offer "O1" job (some 80)
    ∷ offer "O2" job (some 90)
    ∷ offer "O3" grant (some 70)
    ∷ offer "O4" venture none
    ∷ stale
    ∷ offer "O6" venture (some 60)
    ∷ []

abbrev campaign : Campaign
campaign = record {
  campaign_id = "C1";
  opportunity_ids = "O1" ∷ "O2" ∷ "O3" ∷ "O4" ∷ "O5" ∷ "O6" ∷ [];
}

abbrev quotas : RouteType → Option ℕ
quotas job = some 1
quotas r = none

abbrev two_a_day : CampaignReviewPolicy
two_a_day = record {
  policy_version = "v1";
  minimum_quality_score = 50;
  daily_review_limit = 2;
  route_review_quotas = quotas;
}

-- What the candidates are once they are normalised.
abbrev cleaned_candidate : CampaignReviewCandidate → CampaignReviewCandidate
cleaned_candidate c = record c {
  hard_gates = unique same_gate c.hard_gates;
  evidence_refs = "E1" ∷ [];
}

abbrev cleaned : List CampaignReviewCandidate
cleaned = map cleaned_candidate candidates

abbrev built : CampaignReviewQueue
built = queue_of sort_texts platform campaign two_a_day 30 (
    sort_by (listed_before platform)
      (dispositions_of sort_texts platform campaign.opportunity_ids two_a_day cleaned))

queued_ids : map (λ d. d.opportunity_id) built.entries ≡ "O2" ∷ "O3" ∷ []
unfolding dispositions_of sort_by insert_by unique all_set_aside eligible set_aside review verdict
    counted_up ranks_before listed_before disposition unique_evidence_refs
queued_ids = refl

is_built :
    build_campaign_review_queue sort_texts platform campaign candidates two_a_day 30 ≡ ok built
unfolding build_campaign_review_queue validate_campaign_policy normalized normalized_candidate trim
    full_score dispositions_of sort_by insert_by unique all_set_aside eligible set_aside review
    verdict counted_up ranks_before listed_before disposition unique_evidence_refs
is_built = refl

build_campaign_review_queue-limit_example : length built.entries ≤ 2
build_campaign_review_queue-limit_example =
    build_campaign_review_queue-limit sort_texts platform campaign candidates two_a_day 30 built
      is_built

build_campaign_review_queue-IsReviewable_example :
    All (IsReviewable campaign.opportunity_ids two_a_day candidates) built.entries
build_campaign_review_queue-IsReviewable_example =
    build_campaign_review_queue-IsReviewable sort_texts platform campaign candidates two_a_day 30
      built is_built

review-route_quota_example :
    0
      + count
          (is_queued_of job)
          (zip candidates (review sort_texts two_a_day 0 (λ r. 0) candidates))
    ≤ 1
review-route_quota_example =
    review-route_quota sort_texts two_a_day 0 (λ r. 0) candidates job 1 refl (omega arith)
