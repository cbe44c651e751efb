-- ===== src/Campaign/Queue.antt =====
-- intelligence/campaign-policy.ts: `buildCampaignReviewQueue`.
use vocation_os.Prelude.{
  ℕ, suc, ◌+◌, Bool, true, false, not, ◌&&◌, ◌||◌, List, [], ◌∷◌, ◌++◌, map, Option, none, some,
  String, ltb, leb, ◌==◌, ◌===◌, if◌then◌else◌, length, includes, keep, ok, ◌>>=◌, ◌>>◌, guard,
  throw_if, is_empty, sort_by, unique,
}
use vocation_os.Runtime.{Platform}
use vocation_os.Text.{trim, is_truthy}
use vocation_os.Campaign.{
  RouteType, CampaignReviewCandidate, CampaignReviewPolicy, queued, hard_gated, below_threshold,
  deferred, not_member, policy_basis, calculation_basis, Disposition, Campaign, CampaignReviewQueue,
  IntelligenceAssertion, candidates_not_unique, candidate_id_missing, quality_score_invalid,
  evidence_required, Outcome, full_score, same_route, same_gate, confidence_rank, is_queued,
  validate_campaign_policy, unique_evidence_refs, disposition,
}

-- `left.qualityScore - right.qualityScore` and so on: no later in the queue than the other.
module _ (p : Platform) where
  -- `right.qualityScore ?? -1`: a number above that of no score
  abbrev score_rank : Option ℕ → ℕ
  score_rank none = 0
  score_rank (some n) = suc n

  unfoldable pub ranks_before : CampaignReviewCandidate → CampaignReviewCandidate → Bool
  ranks_before left right =
      let l = score_rank left.quality_score in
      let r = score_rank right.quality_score in
      let cl = confidence_rank left.confidence in
      let cr = confidence_rank right.confidence in
      ltb r l
      || l == r && (ltb cr cl || cl == cr && p.locale_le left.opportunity_id right.opportunity_id)

  unfoldable pub listed_before : Disposition → Disposition → Bool
  listed_before left right = elim left.queue_position [
    | some l ↦ elim right.queue_position [ some r ↦ leb l r | none ↦ true ]
    | none ↦ elim right.queue_position [
      | some r ↦ false
      | none ↦ p.locale_le left.opportunity_id right.opportunity_id
    ]
  ]

-- The number of queued candidates of each route.
abbrev pub Counts : Type 0
Counts = RouteType → ℕ

unfoldable pub counted_up : RouteType → Counts → Counts
counted_up r counts q = if same_route r q then suc (counts q) else counts q

-- `routeQuota !== undefined && routeCount >= routeQuota`
abbrev pub is_exhausted : Option ℕ → ℕ → Bool
is_exhausted none count = false
is_exhausted (some quota) count = leb quota count

abbrev score_in_range : Option ℕ → Bool
score_in_range none = true
score_in_range (some n) = leb n full_score

-- `qualityScore === null || qualityScore < minimum`
abbrev pub is_below : Option ℕ → ℕ → Bool
is_below none minimum = true
is_below (some n) minimum = ltb n minimum

-- The tests of the second loop on one candidate.
pub data Verdict : Type 0 where
  cap_reached quota_reached taken : Verdict

unfoldable pub verdict :
    CampaignReviewPolicy → (queued_count : ℕ) → Counts → CampaignReviewCandidate → Verdict
verdict policy queued_count counts c =
    if leb policy.daily_review_limit queued_count
    then cap_reached
    else if is_exhausted (policy.route_review_quotas c.route_type) (counts c.route_type)
    then quota_reached
    else taken

module _ (sort_texts : List String → List String) where
  -- One candidate as `candidates.map` makes it, or what that throws.
  unfoldable pub normalized_candidate : CampaignReviewCandidate → Outcome CampaignReviewCandidate
  normalized_candidate c = do
    guard (is_truthy (trim c.opportunity_id)) candidate_id_missing
    guard (score_in_range c.quality_score) (quality_score_invalid c.opportunity_id)
    throw_if (is_empty (unique_evidence_refs sort_texts c.evidence_refs))
        (evidence_required c.opportunity_id)
    ok (record c {
      hard_gates = unique same_gate c.hard_gates;
      evidence_refs = unique_evidence_refs sort_texts c.evidence_refs;
    })

  unfoldable pub normalized : List CampaignReviewCandidate → Outcome (List CampaignReviewCandidate)
  normalized [] = ok []
  normalized (c ∷ cs) = do n ← normalized_candidate c; ns ← normalized cs; ok (n ∷ ns)

  -- The first loop: why a candidate is set aside, if it is.
  unfoldable pub set_aside :
      (members : List String) → CampaignReviewPolicy → CampaignReviewCandidate → Option Disposition
  set_aside members policy c =
      if not (includes members c.opportunity_id)
      then some (disposition sort_texts c not_member "CAMPAIGN_NOT_MEMBER" none false policy_basis)
      else if not (is_empty c.hard_gates)
      then some
          (disposition sort_texts c hard_gated "CAMPAIGN_HARD_GATE_BLOCKED" none false policy_basis)
      else if is_below c.quality_score policy.minimum_quality_score
      then some (
          disposition sort_texts c below_threshold "CAMPAIGN_QUALITY_THRESHOLD_UNMET" none false
            calculation_basis)
      else none

  unfoldable pub all_set_aside :
      (members : List String)
      → CampaignReviewPolicy
      → List CampaignReviewCandidate
      → List Disposition
  all_set_aside members policy [] = []
  all_set_aside members policy (c ∷ cs) = elim (set_aside members policy c) [
    | none ↦ all_set_aside members policy cs
    | some d ↦ d ∷ all_set_aside members policy cs
  ]

  unfoldable pub eligible :
      (members : List String)
      → CampaignReviewPolicy
      → List CampaignReviewCandidate
      → List CampaignReviewCandidate
  eligible members policy [] = []
  eligible members policy (c ∷ cs) = elim (set_aside members policy c) [
    | none ↦ c ∷ eligible members policy cs
    | some d ↦ eligible members policy cs
  ]

  -- The second loop, over the eligible candidates in their order.
  unfoldable pub review :
      CampaignReviewPolicy
      → (queued_count : ℕ) → Counts
      → List CampaignReviewCandidate
      → List Disposition
  review policy queued_count counts [] = []
  review policy queued_count counts (c ∷ cs) = elim (verdict policy queued_count counts c) [
    | cap_reached ↦
        disposition sort_texts c deferred "CAMPAIGN_REVIEW_CAP_REACHED" none false policy_basis
        ∷ review policy queued_count counts cs
    | quota_reached ↦
        disposition sort_texts c deferred "CAMPAIGN_ROUTE_QUOTA_REACHED" none false policy_basis
        ∷ review policy queued_count counts cs
    | taken ↦
        disposition sort_texts c queued "CAMPAIGN_REVIEW_QUEUED" (some (queued_count + 1)) true
          calculation_basis
        ∷ review policy (queued_count + 1) (counted_up c.route_type counts) cs
  ]

  module _ (p : Platform) where
    -- The dispositions in the order in which they are made.
    unfoldable pub dispositions_of :
        (members : List String)
        → CampaignReviewPolicy
        → List CampaignReviewCandidate
        → List Disposition
    dispositions_of members policy cs =
        all_set_aside members policy cs
        ++ review policy 0 (λ r. 0) (sort_by (ranks_before p) (eligible members policy cs))

    abbrev pub assertions_of : List Disposition → List IntelligenceAssertion
    assertions_of [] = []
    assertions_of (d ∷ ds) = d.assertions ++ assertions_of ds

    abbrev pub queue_of :
        Campaign → CampaignReviewPolicy → (now : ℕ) → List Disposition → CampaignReviewQueue
    queue_of campaign policy now dispositions = record {
      campaign_id = campaign.campaign_id;
      policy_version = policy.policy_version;
      generated_at = p.to_iso_string now;
      entries = keep is_queued dispositions;
      dispositions = dispositions;
      assertions = assertions_of dispositions;
    }

    abbrev ids_of : List CampaignReviewCandidate → List String
    ids_of cs = map (λ c. c.opportunity_id) cs

    unfoldable pub build_campaign_review_queue :
        Campaign
        → List CampaignReviewCandidate
        → CampaignReviewPolicy
        → (now : ℕ) → Outcome CampaignReviewQueue
    build_campaign_review_queue campaign candidates policy now = do
      validate_campaign_policy policy
      guard (length (unique (λ x y. x === y) (ids_of candidates)) == length (ids_of candidates))
          candidates_not_unique
      cs ← normalized candidates
      ok (
          queue_of campaign policy now
            (sort_by (listed_before p) (dispositions_of campaign.opportunity_ids policy cs)))
