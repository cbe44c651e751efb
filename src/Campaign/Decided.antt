-- ===== src/Campaign/Decided.antt =====
-- A candidate that is found eligible breaks no rule of the policy
-- (intelligence/campaign-engine.ts).
use vocation_os.Prelude.{
  ℕ, ◌+◌, ◌*◌, ◌≤◌, ◌<◌, ◌≡◌, refl, sym, ap, ◌∙◌, Bool, true, false, not, List, [], ◌∷◌, ◌++◌, map,
  Option, none, some, String, leb, includes, ok, arith, append-eq-nil, Result-cases, Option-cases,
  inl, inr, ◌===◌, sort_by-nil, unique-nil, unique,
}
use vocation_os.Runtime.{Platform}
use vocation_os.Campaign.Engine.{
  CampaignPolicy, CampaignUsage, CampaignCandidate, CampaignDecision, eligible, InputJson, count_of,
  code_if, score_codes, normalized, cooldown_codes, policy_codes, sorted_set, decision,
  evaluate_campaign_candidate,
}

-- The time since the last action is the cooldown or more, if there was one.
abbrev pub HasCooled : Platform → CampaignPolicy → Option String → (now : ℕ) → Type 0
HasCooled p policy none now = Unit
HasCooled p policy (some at) now =
    (last : ℕ) × (p.parse_date at ≡ some last) × (last + policy.cooldown_hours * 3_600_000 ≤ now)

-- Every rule of the policy holds of the candidate, and no review is asked for.
pub record IsWithinPolicy (p : Platform) (nfkc to_lower_case : String → String)
    (policy : CampaignPolicy) (usage : CampaignUsage) (c : CampaignCandidate) (now : ℕ)
    : Type 0 where
  pub no_gate : c.hard_gate_failures ≡ []
  pub no_review : c.review_reasons ≡ []
  pub company_allowed :
      includes
        (map (normalized nfkc to_lower_case) policy.excluded_companies)
        (normalized nfkc to_lower_case c.company)
      ≡ false
  pub provider_allowed :
      includes
        (map (normalized nfkc to_lower_case) policy.excluded_providers)
        (normalized nfkc to_lower_case c.provider_id)
      ≡ false
  pub route_allowed : includes policy.allowed_route_types c.route_type ≡ true
  pub score : ℕ
  pub scored : c.fit_score ≡ some (some score)
  pub reached : policy.minimum_fit_score ≤ score
  pub active_below : usage.active_count < policy.max_active_opportunities
  pub today_below : usage.added_today < policy.max_new_per_day
  pub company_below :
      count_of usage.company_counts (normalized nfkc to_lower_case c.company)
      < policy.max_per_company
  pub provider_below :
      count_of usage.provider_counts (normalized nfkc to_lower_case c.provider_id)
      < policy.max_per_provider
  pub cooled : HasCooled p policy usage.last_action_at now

off : (b : Bool) (code : String) → code_if b code ≡ [] → b ≡ false
off true code h = cc
off false code h = refl

score_codes-nil :
    (s : Option (Option ℕ)) (minimum : ℕ)
    → score_codes s minimum ≡ []
    → (score : ℕ) × (s ≡ some (some score)) × (minimum ≤ score)
score_codes-nil none minimum h = absurd (ground arith)
score_codes-nil (some none) minimum h = absurd (ground arith)
score_codes-nil (some (some score)) minimum h = (score, refl, ground arith)

cooldown_codes-nil :
    (p : Platform) (policy : CampaignPolicy) (at : Option String) (now : ℕ)
    → cooldown_codes p policy at now ≡ ok []
    → HasCooled p policy at now
unfolding cooldown_codes
cooldown_codes-nil p policy none now h = tt
cooldown_codes-nil p policy (some at) now h = elim (Option-cases (p.parse_date at)) [
  | inl unreadable ↦ absurd (ground arith)
  | inr (last, read) ↦ (last, read, ground arith)
]

sorted_set-nil :
    (text_le : String → String → Bool) (xs : List String) → sorted_set text_le xs ≡ [] → xs ≡ []
unfolding sorted_set
sorted_set-nil text_le xs h =
    unique-nil (λ x y. x === y) xs (sort_by-nil text_le (unique (λ x y. x === y) xs) h)

eligible_parts :
    (p : Platform) (json : InputJson) (policy : CampaignPolicy) (usage : CampaignUsage)
    (c : CampaignCandidate) (now : ℕ) (blocked_by review_reasons : List String)
    → (decision p json policy usage c now blocked_by review_reasons).status ≡ eligible
    → (blocked_by ≡ []) × (review_reasons ≡ [])
unfolding decision
eligible_parts p json policy usage c now [] [] h = (refl, refl)
eligible_parts p json policy usage c now [] (r ∷ rs) h = absurd (ground arith)
eligible_parts p json policy usage c now (b ∷ bs) rs h = absurd (ground arith)

policy_codes-nil :
    (nfkc to_lower_case : String → String) (policy : CampaignPolicy) (usage : CampaignUsage)
    (c : CampaignCandidate)
    → policy_codes nfkc to_lower_case policy usage c ≡ []
    → (includes
          (map (normalized nfkc to_lower_case) policy.excluded_companies)
          (normalized nfkc to_lower_case c.company)
        ≡ false)
      × (includes
            (map (normalized nfkc to_lower_case) policy.excluded_providers)
            (normalized nfkc to_lower_case c.provider_id)
          ≡ false)
      × (not (includes policy.allowed_route_types c.route_type) ≡ false)
      × (score_codes c.fit_score policy.minimum_fit_score ≡ [])
      × (leb policy.max_active_opportunities usage.active_count ≡ false)
      × (leb policy.max_new_per_day usage.added_today ≡ false)
      × (leb policy.max_per_company
            (count_of usage.company_counts (normalized nfkc to_lower_case c.company))
          ≡ false)
      × (leb policy.max_per_provider
            (count_of usage.provider_counts (normalized nfkc to_lower_case c.provider_id))
          ≡ false)
unfolding policy_codes
policy_codes-nil nfkc to_lower_case policy usage c h =
    let (h1, per_provider) = append-eq-nil _ _ h in
    let (h2, per_company) = append-eq-nil _ _ h1 in
    let (h3, today) = append-eq-nil _ _ h2 in
    let (h4, active) = append-eq-nil _ _ h3 in
    let (h5, score) = append-eq-nil _ _ h4 in
    let (h6, route) = append-eq-nil _ _ h5 in
    let (company, provider) = append-eq-nil _ _ h6 in
    (
      off _ _ company,
      off _ _ provider,
      off _ _ route,
      score,
      off _ _ active,
      off _ _ today,
      off _ _ per_company,
      off _ _ per_provider,
    )

-- A candidate that is found eligible breaks no rule of the policy: no hard gate, no exclusion, a
-- score that reaches the minimum, use below every limit, the cooldown over, and no review asked for.
pub evaluate_campaign_candidate-IsWithinPolicy :
    (p : Platform) (text_le : String → String → Bool) (nfkc to_lower_case : String → String)
    (json : InputJson) (policy : CampaignPolicy) (usage : CampaignUsage) (c : CampaignCandidate)
    (now : ℕ) (d : CampaignDecision)
    → evaluate_campaign_candidate p text_le nfkc to_lower_case json policy usage c now ≡ ok d
    → d.status ≡ eligible
    → IsWithinPolicy p nfkc to_lower_case policy usage c now
unfolding evaluate_campaign_candidate
evaluate_campaign_candidate-IsWithinPolicy p text_le nfkc to_lower_case json policy usage c now d h
      e =
    elim (Result-cases (cooldown_codes p policy usage.last_action_at now)) [
      | inr (why, failed) ↦ absurd (ground arith)
      | inl (cooling, cooled) ↦
          let gates = unique (λ x y. x === y) c.hard_gate_failures in
          let codes = policy_codes nfkc to_lower_case policy usage c in
          let made : d
              ≡ decision p json policy usage c now (sorted_set text_le (gates ++ codes ++ cooling))
                  (sorted_set text_le c.review_reasons) =
            ground arith in
          let (unblocked, unreviewed) =
            eligible_parts p json policy usage c now
              (sorted_set text_le (gates ++ codes ++ cooling)) (sorted_set text_le c.review_reasons)
              (sym (ap (λ x. x.status) made) ∙ e) in
          let (others, no_cooling) =
            append-eq-nil (gates ++ codes) cooling
              (sorted_set-nil text_le (gates ++ codes ++ cooling) unblocked) in
          let (no_gates, no_codes) = append-eq-nil gates codes others in
          let (company, provider, route, score, active, today, per_company, per_provider) =
            policy_codes-nil nfkc to_lower_case policy usage c no_codes in
          let (points, scored, reached) =
            score_codes-nil c.fit_score policy.minimum_fit_score score in
          record {
            no_gate = unique-nil (λ x y. x === y) c.hard_gate_failures no_gates;
            no_review = sorted_set-nil text_le c.review_reasons unreviewed;
            company_allowed = company;
            provider_allowed = provider;
            route_allowed = ground (arith, route);
            score = points;
            scored = scored;
            reached = reached;
            active_below = ground (arith, active);
            today_below = ground (arith, today);
            company_below = ground (arith, per_company);
            provider_below = ground (arith, per_provider);
            cooled =
                cooldown_codes-nil p policy usage.last_action_at now (cooled ∙ ap ok no_cooling);
          }
    ]
