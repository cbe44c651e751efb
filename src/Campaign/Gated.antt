-- ===== src/Campaign/Gated.antt =====
-- What is queued for review has passed every gate (intelligence/campaign-policy.ts).
use mathlib.Core.List.{Memᴰ}
use vocation_os.Prelude.{
  ℕ, ◌+◌, ◌≤◌, ◌≡◌, ◌⊎◌, refl, sym, ap, ◌∙◌, true, false, List, [], ◌∷◌, none, some, String, All,
  includes, ok, arith, Option-cases, inl, inr, All-sort_by, All-append, All-keep, is_empty-nil,
  unique-nil, sort_by,
}
use vocation_os.Runtime.{Platform}
use vocation_os.Campaign.{
  CampaignReviewCandidate, CampaignReviewPolicy, Disposition, Campaign, CampaignReviewQueue,
  is_queued, disposition, queued, deferred, policy_basis, calculation_basis, unique_evidence_refs,
  same_gate,
}
use vocation_os.Campaign.Queue.{
  Counts, counted_up, set_aside, all_set_aside, eligible, Verdict, cap_reached, quota_reached,
  taken, verdict, review, dispositions_of, listed_before, ranks_before, build_campaign_review_queue,
}
use vocation_os.Campaign.Normalized.{IsFrom, normalized-IsFrom}
use vocation_os.Campaign.Bounds.{build-built}

Verdict-cases : (x : Verdict) → (x ≡ cap_reached) ⊎ (x ≡ quota_reached) ⊎ (x ≡ taken)
Verdict-cases cap_reached = inl refl
Verdict-cases quota_reached = inr (inl refl)
Verdict-cases taken = inr (inr refl)

-- A candidate that was given, a member of the campaign, with no hard gate and a score that reaches
-- the minimum, stands behind the disposition.
pub record IsReviewable (members : List String) (policy : CampaignReviewPolicy)
    (candidates : List CampaignReviewCandidate) (d : Disposition) : Type 0 where
  pub candidate : CampaignReviewCandidate
  pub given : Memᴰ candidate candidates
  pub named : candidate.opportunity_id ≡ d.opportunity_id
  pub member : includes members candidate.opportunity_id ≡ true
  pub ungated : candidate.hard_gates ≡ []
  pub score : ℕ
  pub scored : candidate.quality_score ≡ some score
  pub reached : policy.minimum_quality_score ≤ score

module _ (sort_texts : List String → List String) where
  eligible-nil :
      (members : List String) (policy : CampaignReviewPolicy)
      → eligible sort_texts members policy [] ≡ []
  unfolding eligible
  eligible-nil members policy = refl

  eligible-kept :
      (members : List String) (policy : CampaignReviewPolicy) (c : CampaignReviewCandidate)
      (cs : List CampaignReviewCandidate)
      → set_aside sort_texts members policy c ≡ none
      → eligible sort_texts members policy (c ∷ cs) ≡ c ∷ eligible sort_texts members policy cs
  unfolding eligible
  eligible-kept members policy c cs e = rw (eligible, e) refl

  eligible-left :
      (members : List String) (policy : CampaignReviewPolicy) (c : CampaignReviewCandidate)
      (cs : List CampaignReviewCandidate) (d : Disposition)
      → set_aside sort_texts members policy c ≡ some d
      → eligible sort_texts members policy (c ∷ cs) ≡ eligible sort_texts members policy cs
  unfolding eligible
  eligible-left members policy c cs d e = rw (eligible, e) refl

  module _ (members : List String) (policy : CampaignReviewPolicy)
      (candidates : List CampaignReviewCandidate) where
    -- Who is not set aside.
    IsEligible : CampaignReviewCandidate → Type 0
    IsEligible c = IsFrom candidates c × (set_aside sort_texts members policy c ≡ none)

    eligible-All :
        (cs : List CampaignReviewCandidate)
        → All (IsFrom candidates) cs
        → All IsEligible (eligible sort_texts members policy cs)
    unfolding IsEligible
    eligible-All [] hs = rw (eligible-nil members policy) tt
    eligible-All (c ∷ cs) (h, hs) = elim (Option-cases (set_aside sort_texts members policy c)) [
      | inl e ↦ rw (eligible-kept members policy c cs e) ((h, e), eligible-All cs hs)
      | inr (d, e) ↦ rw (eligible-left members policy c cs d e) (eligible-All cs hs)
    ]

    -- What is so of a disposition if it queues its candidate.
    IsSafe : Disposition → Type 0
    IsSafe d = is_queued d ≡ true → IsReviewable members policy candidates d

    set_aside-queued :
        (c : CampaignReviewCandidate) (d : Disposition)
        → set_aside sort_texts members policy c ≡ some d
        → ¬ (is_queued d ≡ true)
    unfolding set_aside disposition
    set_aside-queued c d e q = ground arith

    set_aside-IsSafe :
        (cs : List CampaignReviewCandidate)
        → All IsSafe (all_set_aside sort_texts members policy cs)
    unfolding all_set_aside IsSafe
    set_aside-IsSafe [] = tt
    set_aside-IsSafe (c ∷ cs) = elim (Option-cases (set_aside sort_texts members policy c)) [
      | inl e ↦ rw (all_set_aside, e) (set_aside-IsSafe cs)
      | inr (d, e) ↦
          rw (all_set_aside, e) ((λ q. absurd (set_aside-queued c d e q)), set_aside-IsSafe cs)
    ]

    taken-IsReviewable :
        (c : CampaignReviewCandidate) (n : ℕ)
        → IsEligible c
        → IsReviewable members policy candidates (
            disposition sort_texts c queued "CAMPAIGN_REVIEW_QUEUED"
              (some (n + 1))
              true
              calculation_basis)
    unfolding IsEligible set_aside disposition
    taken-IsReviewable c n (from, e) =
        let id_kept = from.id_kept in
        let (score, scored, reached) : (score : ℕ) × (c.quality_score ≡ some score)
            × (policy.minimum_quality_score ≤ score) =
          elim (Option-cases c.quality_score) [
            | inl unscored ↦ absurd (ground arith)
            | inr (score, scored) ↦ (score, scored, ground arith)
          ] in
        record {
          candidate = from.original;
          given = from.given;
          named = sym id_kept;
          member = ground (arith, id_kept);
          ungated =
              unique-nil same_gate from.original.hard_gates
                (sym from.gates_kept ∙ is_empty-nil c.hard_gates (ground arith));
          score = score;
          scored = sym from.score_kept ∙ scored;
          reached = reached;
        }

    review-nil : (n : ℕ) (counts : Counts) → review sort_texts policy n counts [] ≡ []
    unfolding review
    review-nil n counts = refl

    review-step :
        (n : ℕ) (counts : Counts) (c : CampaignReviewCandidate) (cs : List CampaignReviewCandidate)
        → (d : Disposition) × (n' : ℕ) × (counts' : Counts) × (review sort_texts policy n counts
              (c ∷ cs)
            ≡ d ∷ review sort_texts policy n' counts' cs)
          × ((is_queued d ≡ false)
              ⊎ (d
                  ≡ disposition sort_texts c queued "CAMPAIGN_REVIEW_QUEUED"
                      (some (n + 1))
                      true
                      calculation_basis))
    unfolding disposition review unique_evidence_refs
    review-step n counts c cs = elim (Verdict-cases (verdict policy n counts c)) [
      | inl e ↦ (
        disposition sort_texts c deferred "CAMPAIGN_REVIEW_CAP_REACHED" none false policy_basis,
        n,
        counts,
        rw (review, e) refl,
        inl refl,
      )
      | inr (inl e) ↦ (
        disposition sort_texts c deferred "CAMPAIGN_ROUTE_QUOTA_REACHED" none false policy_basis,
        n,
        counts,
        rw (review, e) refl,
        inl refl,
      )
      | inr (inr e) ↦ (
        disposition sort_texts c queued "CAMPAIGN_REVIEW_QUEUED" (some (n + 1)) true
            calculation_basis,
        n + 1,
        counted_up c.route_type counts,
        rw (review, e) refl,
        inr refl,
      )
    ]

    review-IsSafe :
        (n : ℕ) (counts : Counts) (cs : List CampaignReviewCandidate)
        → All IsEligible cs
        → All IsSafe (review sort_texts policy n counts cs)
    unfolding IsSafe
    review-IsSafe n counts [] hs = rw (review-nil n counts) tt
    review-IsSafe n counts (c ∷ cs) (h, hs) =
        let (d, n', counts', e, what) = review-step n counts c cs in
        rw e (
          elim what [
            | inl idle ↦ (λ q. absurd (ground arith))
            | inr it ↦ (λ q. rw it (taken-IsReviewable c n h))
          ],
          review-IsSafe n' counts' cs hs,
        )

-- Every entry of a queue that is built stands for a candidate that was given, is a member of the
-- campaign, has no hard gate and has a score that reaches the policy's minimum.
pub build_campaign_review_queue-IsReviewable :
    (sort_texts : List String → List String) (p : Platform) (campaign : Campaign)
    (candidates : List CampaignReviewCandidate) (policy : CampaignReviewPolicy) (now : ℕ)
    (q : CampaignReviewQueue)
    → build_campaign_review_queue sort_texts p campaign candidates policy now ≡ ok q
    → All (IsReviewable campaign.opportunity_ids policy candidates) q.entries
unfolding dispositions_of IsSafe
build_campaign_review_queue-IsReviewable sort_texts p campaign candidates policy now q h =
    let (cs, made, built) = build-built sort_texts p campaign candidates policy now q h in
    let members = campaign.opportunity_ids in
    let ds = dispositions_of sort_texts p members policy cs in
    let Safe = IsSafe sort_texts members policy candidates in
    let shown = eligible sort_texts members policy cs in
    let ready =
      eligible-All sort_texts members policy candidates cs
        (normalized-IsFrom sort_texts candidates cs made) in
    let safe : All Safe ds =
      All-append Safe (all_set_aside sort_texts members policy cs)
        (review sort_texts policy 0 (λ r. 0) (sort_by (ranks_before p) shown))
        (set_aside-IsSafe sort_texts members policy candidates cs)
        (review-IsSafe sort_texts members policy candidates 0 (λ r. 0)
          (sort_by (ranks_before p) shown)
          (All-sort_by (IsEligible sort_texts members policy candidates) (ranks_before p) shown
            ready)) in
    rw (ap (λ x. x.entries) built) (
      All-keep Safe (IsReviewable members policy candidates) is_queued
        (sort_by (listed_before p) ds) (λ d e s. s e) (All-sort_by Safe (listed_before p) ds safe))
