-- ===== src/Campaign/Normalized.antt =====
-- The normalised candidates of `buildCampaignReviewQueue` in intelligence/campaign-policy.ts.
use mathlib.Core.List.{Memᴰ}
use vocation_os.Prelude.{
  ◌≡◌, refl, List, [], ◌∷◌, String, All, All-map, ok, arith, Result-cases, ok_injective, inl, inr,
  unique,
}
use vocation_os.Campaign.{CampaignReviewCandidate, same_gate}
use vocation_os.Campaign.Queue.{normalized_candidate, normalized}

-- The candidate that another was normalised from.
pub record IsFrom (candidates : List CampaignReviewCandidate) (n : CampaignReviewCandidate)
    : Type 0 where
  pub original : CampaignReviewCandidate
  pub given : Memᴰ original candidates
  pub id_kept : n.opportunity_id ≡ original.opportunity_id
  pub gates_kept : n.hard_gates ≡ unique same_gate original.hard_gates
  pub score_kept : n.quality_score ≡ original.quality_score

later :
    (c : CampaignReviewCandidate) (cs : List CampaignReviewCandidate) (n : CampaignReviewCandidate)
    → IsFrom cs n
    → IsFrom (c ∷ cs) n
later c cs n f = record {
  original = f.original;
  given = Memᴰ.tail f.given;
  id_kept = f.id_kept;
  gates_kept = f.gates_kept;
  score_kept = f.score_kept;
}

module _ (sort_texts : List String → List String) where
  normalized_candidate-IsFrom :
      (c n : CampaignReviewCandidate) (cs : List CampaignReviewCandidate)
      → normalized_candidate sort_texts c ≡ ok n
      → IsFrom (c ∷ cs) n
  unfolding normalized_candidate
  normalized_candidate-IsFrom c n cs h = record {
    original = c;
    given = Memᴰ.head refl;
    id_kept = ground arith;
    gates_kept = ground arith;
    score_kept = ground arith;
  }

  pub normalized-IsFrom :
      (candidates cs : List CampaignReviewCandidate)
      → normalized sort_texts candidates ≡ ok cs
      → All (IsFrom candidates) cs
  unfolding normalized
  normalized-IsFrom [] cs h = rw (← ok_injective h) tt
  normalized-IsFrom (c ∷ candidates) cs h =
      elim (Result-cases (normalized_candidate sort_texts c)) [
        | inr (why, failed) ↦ absurd (ground arith)
        | inl (n, first) ↦ elim (Result-cases (normalized sort_texts candidates)) [
          | inr (why, failed) ↦ absurd (ground arith)
          | inl (ns, rest) ↦
              let whole : cs ≡ n ∷ ns = ground arith in
              rw whole (
                normalized_candidate-IsFrom c n candidates first,
                All-map (IsFrom candidates) (IsFrom (c ∷ candidates)) (later c candidates) ns
                    (normalized-IsFrom candidates ns rest),
              )
        ]
      ]
