-- ===== src/Examples/Engine.antt =====
-- A candidate that may enter a campaign, and an item that is snoozed and resolved.
use vocation_os.Prelude.{
  ◌≡◌, ◌⊎◌, refl, true, List, [], ◌∷◌, some, String, ok, insert_by, sort_by, unique,
}
use vocation_os.Hash.{null}
use vocation_os.Text.{trim}
use vocation_os.Campaign.{full_score}
use vocation_os.Campaign.Engine.{
  CampaignPolicy, CampaignUsage, CampaignCandidate, CampaignDecision, InputJson, count_of,
  validate_campaign_policy, normalized, cooldown_codes, policy_codes, sorted_set, decision,
  evaluate_campaign_candidate,
}
use vocation_os.Campaign.Decided.{IsWithinPolicy, evaluate_campaign_candidate-IsWithinPolicy}
use vocation_os.Campaign.Review.{
  merge, reject, ReviewQueueItem, ReviewQueueInput, is_open, pending_item, create_review_queue_item,
  ReviewCall, resolve, snooze, run_calls,
}
use vocation_os.Campaign.Reviewed.{IsConsistent, create-run_calls}
use vocation_os.Examples.Base.{platform}

abbrev same_text : String → String
same_text s = s

abbrev policy : CampaignPolicy
policy = record {
  campaign_id = "C1";
  profile_id = "P1";
  minimum_fit_score = 60;
  max_active_opportunities = 5;
  max_new_per_day = 2;
  max_per_company = 2;
  max_per_provider = 3;
  cooldown_hours = 1;
  follow_up_after_days = 7 ∷ 14 ∷ [];
  excluded_companies = "acme" ∷ [];
  excluded_providers = [];
  allowed_route_types = "job" ∷ [];
  policy_version = "v1";
}

abbrev usage : CampaignUsage
usage = record {
  active_count = 3;
  added_today = 1;
  company_counts = ("clinic", 1) ∷ [];
  provider_counts = [];
  last_action_at = some "T1000";
}

abbrev candidate : CampaignCandidate
candidate = record {
  opportunity_id = "O1";
  company = " clinic ";
  provider_id = "board";
  route_type = "job";
  fit_score = some (some 75);
  hard_gate_failures = [];
  review_reasons = [];
}

abbrev no_json : InputJson
no_json = record { policy_json = λ x. null; usage_json = λ x. null; candidate_json = λ x. null }

abbrev decided : CampaignDecision
decided = decision platform no_json policy usage candidate 3_601_000 [] []

found_eligible :
    evaluate_campaign_candidate platform platform.locale_le same_text same_text no_json policy usage
      candidate 3_601_000
    ≡ ok decided
unfolding evaluate_campaign_candidate validate_campaign_policy trim full_score unique sort_by
    insert_by sorted_set policy_codes normalized count_of cooldown_codes
found_eligible = refl

evaluate_campaign_candidate-IsWithinPolicy_example :
    IsWithinPolicy platform same_text same_text policy usage candidate 3_601_000
unfolding decision
evaluate_campaign_candidate-IsWithinPolicy_example =
    evaluate_campaign_candidate-IsWithinPolicy platform platform.locale_le same_text same_text
      no_json policy usage candidate 3_601_000 decided found_eligible refl

abbrev input : ReviewQueueInput
input = record {
  opportunity_id = "O1";
  campaign_id = "C1";
  reasons = "truth-conflict" ∷ [];
  evidence_pointers = " E1 " ∷ "" ∷ [];
  now = 30;
}

abbrev created : ReviewQueueItem
created = pending_item platform platform.locale_le same_text input ("E1" ∷ [])

is_created : create_review_queue_item platform platform.locale_le same_text input ≡ ok created
unfolding create_review_queue_item trim unique sort_by insert_by sorted_set
is_created = refl

abbrev calls : List ReviewCall
calls = snooze "T50" 40 ∷ resolve merge ∷ []

abbrev more : List ReviewCall
more = resolve reject ∷ snooze "T90" 60 ∷ []

create-run_calls_example :
    IsConsistent (run_calls platform created calls)
    × ((is_open (run_calls platform created calls).status ≡ true)
        ⊎ (run_calls platform (run_calls platform created calls) more
            ≡ run_calls platform created calls))
create-run_calls_example =
    create-run_calls platform platform.locale_le same_text input created calls more is_created
