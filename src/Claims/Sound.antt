-- ===== src/Claims/Sound.antt =====
-- The claims of a graph that validateClaimGraph (claim-graph.ts) accepts.
use vocation_os.Prelude.{
  ℕ, ◌+◌, ◌-◌, ◌*◌, ◌≤◌, ◌≡◌, refl, ◌↔◌, true, List, [], ◌∷◌, Option, none, some, String, arith,
  eq_iff, All, Bool-cases, inl, inr, append-eq-nil,
}
use vocation_os.Runtime.{Platform}
use vocation_os.Hash.{◌+++◌}
use vocation_os.Text.{is_present, is_truthy}
use vocation_os.Claims.{
  EvidenceStatus, verified, is_verified, RecencyPolicyId, max_age_days, Claim, day,
  compute_claim_text_hash, age_reasons, validate_recency, dated_reasons, claim_reasons, scan_claims,
}

pub is_verified_iff : (e : EvidenceStatus) → (is_verified e ≡ true) ↔ (e ≡ verified)
is_verified_iff e = ground arith

-- A claim that must be recent is verified, by a policy, on a date that is not more than a day ahead
-- of the clock and not older than the policy allows.
pub record IsFresh (p : Platform) (c : Claim) (now : ℕ) : Type 0 where
  pub status : c.evidence_status ≡ verified
  pub date : String
  pub dated : c.verified_date ≡ some date
  pub policy : RecencyPolicyId
  pub governed : c.recency_policy_id ≡ some policy
  pub at : ℕ
  pub read : p.parse_date (date +++ "T00:00:00.000Z") ≡ some at
  pub not_ahead : at ≤ now + day
  pub not_stale : now - at ≤ max_age_days policy * day

age-fresh :
    (p : Platform) (c : Claim) (policy : RecencyPolicyId) (now : ℕ) (o : Option ℕ)
    → age_reasons p c policy now o ≡ []
    → (at : ℕ) × (o ≡ some at) × (at ≤ now + day) × (now - at ≤ max_age_days policy * day)
unfolding age_reasons
age-fresh p c policy now none h = absurd (ground arith)
age-fresh p c policy now (some at) h = (at, refl, ground arith, ground arith)

dated-IsFresh :
    (p : Platform) (c : Claim) (date : Option String) (policy : Option RecencyPolicyId) (now : ℕ)
    → dated_reasons p c date policy now ≡ []
    → c.evidence_status ≡ verified
    → c.verified_date ≡ date
    → c.recency_policy_id ≡ policy
    → IsFresh p c now
unfolding dated_reasons
dated-IsFresh p c none policy now h v d q = absurd (ground arith)
dated-IsFresh p c (some date) none now h v d q = absurd (ground arith)
dated-IsFresh p c (some date) (some policy) now h v d q = elim (Bool-cases (is_truthy date)) [
  | inr blank ↦ absurd (ground arith)
  | inl given ↦
      let (at, read, ahead, stale) =
        age-fresh p c policy now (p.parse_date (date +++ "T00:00:00.000Z")) (rw given at h) in
      record {
        status = v;
        date = date;
        dated = d;
        policy = policy;
        governed = q;
        at = at;
        read = read;
        not_ahead = ahead;
        not_stale = stale;
      }
]

recency-IsFresh :
    (p : Platform) (c : Claim) (now : ℕ)
    → validate_recency p c now ≡ []
    → c.recency_required ≡ true
    → IsFresh p c now
unfolding validate_recency
recency-IsFresh p c now h required =
    let status = (is_verified_iff c.evidence_status).0 (ground arith) in
    dated-IsFresh p c c.verified_date c.recency_policy_id now (ground arith) status refl refl

-- A claim of a graph that is accepted: its digest is that of its text, it has a date if it is
-- verified, and it is fresh if it must be.
pub record IsSound (p : Platform) (now : ℕ) (c : Claim) : Type 0 where
  pub digest : c.canonical_text_hash ≡ compute_claim_text_hash p c.text
  pub dated : c.evidence_status ≡ verified → is_present c.verified_date ≡ true
  pub fresh : c.recency_required ≡ true → IsFresh p c now

claim-IsSound :
    (p : Platform) (ids : List String) (c : Claim) (now : ℕ)
    → claim_reasons p ids c now ≡ []
    → IsSound p now c
unfolding claim_reasons
claim-IsSound p ids c now h =
    let recent : validate_recency p c now ≡ [] = ground arith in
    record {
      digest = ground (arith, eq_iff c.canonical_text_hash (compute_claim_text_hash p c.text));
      dated = λ v. ground (arith, is_verified_iff c.evidence_status);
      fresh = recency-IsFresh p c now recent;
    }

pub scan-IsSound :
    (p : Platform) (cs : List Claim) (ids : List String) (now : ℕ)
    → scan_claims p cs ids now ≡ []
    → All (IsSound p now) cs
unfolding scan_claims
scan-IsSound p [] ids now h = tt
scan-IsSound p (c ∷ cs) ids now h =
    let (here, rest) =
      append-eq-nil (claim_reasons p ids c now) (scan_claims p cs (c.claim_id ∷ ids) now) h in
    (claim-IsSound p ids c now here, scan-IsSound p cs (c.claim_id ∷ ids) now rest)
