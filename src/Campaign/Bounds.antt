-- ===== src/Campaign/Bounds.antt =====
-- How many candidates are queued (intelligence/campaign-policy.ts): within the limit of the day and
-- within the quota of each route.
use vocation_os.Prelude.{
  ℕ, suc, ◌+◌, ◌≤◌, ◌≡◌, refl, sym, ap, ◌∙◌, Bool, true, ◌&&◌, List, [], ◌∷◌, ◌++◌, some, String,
  length, get_or, keep, ok, arith, Result-cases, Bool-cases, inl, inr, ==_iff, insert_by, sort_by,
}
use vocation_os.Runtime.{Platform}
use vocation_os.Campaign.{
  RouteType, CampaignReviewCandidate, CampaignReviewPolicy, Disposition, Campaign,
  CampaignReviewQueue, same_route, is_queued, disposition, all_routes, route_index, job, fellowship,
  postdoc, grant, consulting, teaching, speaking, publishing, venture,
}
use vocation_os.Campaign.Queue.{
  Counts, counted_up, set_aside, all_set_aside, eligible, verdict, review, queue_of, normalized,
  listed_before, ranks_before, dispositions_of, build_campaign_review_queue,
}

-- The number of members that pass a test.
abbrev pub count : {A : Type 0} → (A → Bool) → List A → ℕ
count q xs = length (keep q xs)

count-append :
    {A : Type 0} (q : A → Bool) (xs ys : List A) → count q (xs ++ ys) ≡ count q xs + count q ys
count-append q [] ys = omega arith
count-append q (x ∷ xs) ys = ground (arith, count-append q xs ys)

count-insert_by :
    {A : Type 0} (le : A → A → Bool) (q : A → Bool) (x : A) (ys : List A)
    → count q (insert_by le x ys) ≡ count q (x ∷ ys)
unfolding insert_by
count-insert_by le q x [] = refl
count-insert_by le q x (y ∷ ys) = ground (arith, count-insert_by le q x ys)

pub count-sort_by :
    {A : Type 0} (le : A → A → Bool) (q : A → Bool) (xs : List A)
    → count q (sort_by le xs) ≡ count q xs
unfolding sort_by
count-sort_by le q [] = refl
count-sort_by le q (x ∷ xs) =
    ground (arith, count-insert_by le q x (sort_by le xs), count-sort_by le q xs)

module _ (sort_texts : List String → List String) where
  no_queued :
      (members : List String) (policy : CampaignReviewPolicy) (cs : List CampaignReviewCandidate)
      → count is_queued (all_set_aside sort_texts members policy cs) ≡ 0
  unfolding all_set_aside set_aside disposition
  no_queued members policy [] = refl
  no_queued members policy (c ∷ cs) = ground (arith, no_queued members policy cs)

  count-review :
      (policy : CampaignReviewPolicy) (n : ℕ) (counts : Counts) (cs : List CampaignReviewCandidate)
      → n ≤ policy.daily_review_limit
      → n + count is_queued (review sort_texts policy n counts cs) ≤ policy.daily_review_limit
  unfolding review verdict disposition
  count-review policy n counts [] h = ground arith
  count-review policy n counts (c ∷ cs) h = ground (
    arith,
    count-review policy n counts cs,
    count-review policy (n + 1) (counted_up c.route_type counts) cs,
  )

-- Each candidate beside its disposition.
abbrev pub zip : {A B : Type 0} → List A → List B → List (A × B)
zip [] ys = []
zip (x ∷ xs) [] = []
zip (x ∷ xs) (y ∷ ys) = (x, y) ∷ zip xs ys

-- The candidate has the route, and was queued.
abbrev pub is_queued_of : RouteType → CampaignReviewCandidate × Disposition → Bool
is_queued_of r x = same_route r x.0.route_type && is_queued x.1

route_at : ℕ → RouteType
route_at i = get_or all_routes i job

route_at-index : (r : RouteType) → route_at (route_index r) ≡ r
unfolding route_at
route_at-index job = refl
route_at-index fellowship = refl
route_at-index postdoc = refl
route_at-index grant = refl
route_at-index consulting = refl
route_at-index teaching = refl
route_at-index speaking = refl
route_at-index publishing = refl
route_at-index venture = refl

same_route-eq : (r s : RouteType) → same_route r s ≡ true → r ≡ s
same_route-eq r s h =
    sym (route_at-index r)
    ∙ ap route_at ((==_iff (route_index r) (route_index s)).0 h)
    ∙ route_at-index s

-- From any counts within the quota of a route, the loop over the eligible candidates queues no more
-- of that route than the quota leaves.
pub review-route_quota :
    (sort_texts : List String → List String) (policy : CampaignReviewPolicy) (n : ℕ)
    (counts : Counts) (cs : List CampaignReviewCandidate) (r : RouteType) (quota : ℕ)
    → policy.route_review_quotas r ≡ some quota
    → counts r ≤ quota
    → counts r + count (is_queued_of r) (zip cs (review sort_texts policy n counts cs)) ≤ quota
unfolding review verdict disposition counted_up
review-route_quota sort_texts policy n counts [] r quota q h = ground arith
review-route_quota sort_texts policy n counts (c ∷ cs) r quota q h =
    elim (Bool-cases (same_route r c.route_type)) [
      | inr other ↦
          let kept : counted_up c.route_type counts r ≡ counts r = ground arith in
          ground (
            arith,
            review-route_quota sort_texts policy n counts cs r quota q,
            review-route_quota sort_texts policy (n + 1) (counted_up c.route_type counts) cs r quota
                q,
          )
      | inl same ↦
          let e : r ≡ c.route_type = same_route-eq r c.route_type same in
          let room : policy.route_review_quotas c.route_type ≡ some quota =
            sym (ap policy.route_review_quotas e) ∙ q in
          let here : counts c.route_type ≡ counts r = ap counts (sym e) in
          let raised : counted_up c.route_type counts r ≡ suc (counts r) = ground arith in
          ground (
            arith,
            review-route_quota sort_texts policy n counts cs r quota q,
            review-route_quota sort_texts policy (n + 1) (counted_up c.route_type counts) cs r quota
                q,
          )
    ]

-- What a queue that is built was built of.
pub build-built :
    (sort_texts : List String → List String) (p : Platform) (campaign : Campaign)
    (candidates : List CampaignReviewCandidate) (policy : CampaignReviewPolicy) (now : ℕ)
    (q : CampaignReviewQueue)
    → build_campaign_review_queue sort_texts p campaign candidates policy now ≡ ok q
    → (cs : List CampaignReviewCandidate) × (normalized sort_texts candidates ≡ ok cs)
      × (q
          ≡ queue_of sort_texts p campaign policy now (
              sort_by
                (listed_before p)
                (dispositions_of sort_texts p campaign.opportunity_ids policy cs)))
unfolding build_campaign_review_queue
build-built sort_texts p campaign candidates policy now q h =
    elim (Result-cases (normalized sort_texts candidates)) [
      | inr (why, failed) ↦ absurd (ground arith)
      | inl (cs, made) ↦ (cs, made, ground arith)
    ]

-- The entries of a queue that is built are at most as many as the policy lets be reviewed a day.
pub build_campaign_review_queue-limit :
    (sort_texts : List String → List String) (p : Platform) (campaign : Campaign)
    (candidates : List CampaignReviewCandidate) (policy : CampaignReviewPolicy) (now : ℕ)
    (q : CampaignReviewQueue)
    → build_campaign_review_queue sort_texts p campaign candidates policy now ≡ ok q
    → length q.entries ≤ policy.daily_review_limit
unfolding dispositions_of
build_campaign_review_queue-limit sort_texts p campaign candidates policy now q h =
    let (cs, _, built) = build-built sort_texts p campaign candidates policy now q h in
    let members = campaign.opportunity_ids in
    let shown = sort_by (ranks_before p) (eligible sort_texts members policy cs) in
    rw
      (
        ap (λ x. length x.entries) built,
        count-sort_by (listed_before p) is_queued (dispositions_of sort_texts p members policy cs),
        count-append is_queued (all_set_aside sort_texts members policy cs)
            (review sort_texts policy 0 (λ r. 0) shown),
        no_queued sort_texts members policy cs,
      )
      (count-review sort_texts policy 0 (λ r. 0) shown (omega arith))
