-- ===== src/Claims/Packet.antt =====
-- types.ts, claim-graph.ts: claims, their graph, packets, and the file system they lie on.
use vocation_os.Prelude.{ℕ, Bool, true, false, List, Option, String}

pub data EvidenceStatus : Type 0 where
  verified operator_supplied inferred unverified current_source_required : EvidenceStatus

abbrev pub is_verified : EvidenceStatus → Bool
is_verified verified = true
is_verified _ = false

abbrev pub evidence_text : EvidenceStatus → String
evidence_text verified = "verified"
evidence_text operator_supplied = "operator_supplied"
evidence_text inferred = "inferred"
evidence_text unverified = "unverified"
evidence_text current_source_required = "current_source_required"

pub data RecencyPolicyId : Type 0 where
  job_liveness salary_market legal_regulatory organization_contact credential_status :
      RecencyPolicyId

-- RECENCY_POLICY_MAX_AGE_DAYS
abbrev pub max_age_days : RecencyPolicyId → ℕ
max_age_days job_liveness = 3
max_age_days salary_market = 30
max_age_days legal_regulatory = 30
max_age_days organization_contact = 90
max_age_days credential_status = 365

abbrev pub policy_text : RecencyPolicyId → String
policy_text job_liveness = "job-liveness"
policy_text salary_market = "salary-market"
policy_text legal_regulatory = "legal-regulatory"
policy_text organization_contact = "organization-contact"
policy_text credential_status = "credential-status"

-- The fields of a claim that the checks read.
pub record Claim : Type 0 where
  pub claim_id : String
  pub text : String
  pub canonical_text_hash : String
  pub evidence_status : EvidenceStatus
  pub source_pointer : String
  pub verified_date : Option String
  pub recency_required : Bool
  pub recency_policy_id : Option RecencyPolicyId
  pub publicly_assertable : Bool
  pub allowed_in_auto_apply : Bool

pub data ProfileScope : Type 0 where
  synthetic local_private : ProfileScope

pub record ClaimGraph : Type 0 where
  pub profile_scope : ProfileScope
  pub claims : List Claim
  pub verified_claims : ℕ
  pub unverified_claims : ℕ
  pub private_claims : ℕ

pub record ApplicationPacketClaim : Type 0 where
  pub claim_id : String
  pub text : String
  pub source_claim_text_hash : String
  pub evidence_status : EvidenceStatus
  pub source_pointer : String
  pub publicly_assertable : Bool

pub record Document : Type 0 where
  pub kind : String
  pub path : String
  pub content_hash : String

pub record ApplicationPacket : Type 0 where
  pub opportunity_id : String
  pub claims : List ApplicationPacketClaim
  pub documents : List Document
  pub tos_compliant : Bool
  pub generated_at : String
  pub packet_hash : String
  pub approval_required : Bool

pub record PacketValidationResult : Type 0 where
  pub valid : Bool
  pub reasons : List String

-- What node:fs and node:path answer; `none` where a call throws. `resolve "" path` is `path.resolve`
-- of one argument.
pub record FileSystem : Type 0 where
  pub resolve : String → String → String
  pub relative : String → String → String
  pub is_absolute : String → Bool
  pub exists : String → Bool
  pub realpath : String → Option String
  pub is_file : String → Option Bool
  -- The SHA-256 digest of a file's bytes, in hexadecimal.
  pub file_digest : String → Option String
