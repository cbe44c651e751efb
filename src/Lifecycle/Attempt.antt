-- ===== src/Lifecycle/Attempt.antt =====
-- application-lifecycle.ts: the attempt, what is given to its operations, and the tests of its fields.
use vocation_os.Prelude.{
  ℕ, Bool, true, false, not, ◌&&◌, ◌||◌, List, [], ◌∷◌, Option, none, some, String, ◌===◌, Result,
}
use vocation_os.Runtime.{Platform, SchemaValidation}
use vocation_os.Types.{ReversibilityTag, HighStakesFlags, ApprovalReference, ActionLedgerEntry}
use vocation_os.Approval.{TrustedApprover}
use vocation_os.Submission.{SubmissionProof}

pub data ApplicationChannel : Type 0 where
  ats_form official_email platform_profile other : ApplicationChannel

pub data ApplicationAttemptStatus : Type 0 where
  prepared approved submitted_unconfirmed confirmed blocked : ApplicationAttemptStatus

-- `left === right`
abbrev pub same_status : ApplicationAttemptStatus → ApplicationAttemptStatus → Bool
same_status prepared prepared = true
same_status approved approved = true
same_status submitted_unconfirmed submitted_unconfirmed = true
same_status confirmed confirmed = true
same_status blocked blocked = true
same_status _ _ = false

pub record ApplicationAttempt : Type 0 where
  pub attempt_id : String
  pub opportunity_id : String
  pub packet_hash : String
  pub adapter_id : String
  pub channel : ApplicationChannel
  pub reversibility_tag : ReversibilityTag
  pub high_stakes_gate_passed : Bool
  pub action_intent_hash : String
  pub status : ApplicationAttemptStatus
  pub created_at : String
  pub updated_at : String
  pub approval_id : Option String
  pub approval_approved_by : Option String
  pub approval_key_id : Option String
  pub approval_expires_at : Option String
  pub proof_id : Option String
  pub proof_receipt_hash : Option String
  pub collector_id : Option String
  pub blocker : Option String

pub record ApplicationAttemptInput : Type 0 where
  pub opportunity_id : String
  pub packet_hash : String
  pub adapter_id : String
  pub channel : ApplicationChannel
  pub reversibility_tag : ReversibilityTag
  pub high_stakes_flags : HighStakesFlags

-- What is thrown.
pub data LifecycleError : Type 0 where
  schema_invalid : LifecycleError
  assessment_incomplete : LifecycleError
  wrong_status : ApplicationAttemptStatus → LifecycleError
  approval_rejected : Option String → LifecycleError
  high_stakes_gate_not_passed : LifecycleError
  approval_binding_incomplete : LifecycleError
  approval_expired : LifecycleError
  approver_no_longer_trusted : LifecycleError
  confirmed_is_final : LifecycleError
  blocker_required : LifecycleError
  proof_key_unreadable : LifecycleError
  proof_not_confirmed : List String → LifecycleError
  not_collector_bound : LifecycleError
  gates_not_passed : LifecycleError

-- What the operations are given: the platform, and the validators of the JSON schemas.
pub record Services : Type 0 where
  pub platform : Platform
  pub approval_schema : ApprovalReference → SchemaValidation
  -- The message of `assertSchema` for a proof, if it throws.
  pub proof_schema : SubmissionProof → Option String
  -- Whether `assertSchema` lets the attempt or the entry pass.
  pub attempt_schema : ApplicationAttempt → Bool
  pub entry_schema : ActionLedgerEntry → Bool

abbrev pub Outcome : Type 0
Outcome = Result LifecycleError ApplicationAttempt

-- `HIGH_STAKES_FLAGS.map((flag) => flags[flag])`
abbrev pub flag_values : HighStakesFlags → List (Option Bool)
flag_values f =
    f.immigration_sensitive ∷ f.licensing_sensitive ∷ f.financial_liability_sensitive
    ∷ f.clinical_or_mental_health_sensitive ∷ f.research_integrity_sensitive
    ∷ f.conflict_of_interest_sensitive ∷ f.public_reputation_sensitive
    ∷ f.family_relocation_sensitive ∷ []

-- `typeof value === "boolean"`
abbrev pub is_assessed : Option Bool → Bool
is_assessed none = false
is_assessed (some b) = true

-- `value === false`
abbrev pub is_cleared : Option Bool → Bool
is_cleared none = false
is_cleared (some b) = not b

-- `value === null`
abbrev pub is_null : Option String → Bool
is_null none = true
is_null (some s) = false

-- `approver.approvedBy === attempt.approvalApprovedBy && …`
abbrev pub vouches : Option String → Option String → TrustedApprover → Bool
vouches (some by) (some key) t = t.approved_by === by && t.key_id === key
vouches _ _ t = false

-- `field === value` for a field that may be null.
abbrev pub is_some_text : Option String → String → Bool
is_some_text none s = false
is_some_text (some t) s = t === s

abbrev pub lacks_approval : ApplicationAttempt → Bool
lacks_approval a =
    is_null a.approval_id
    || is_null a.approval_approved_by
    || is_null a.approval_key_id
    || is_null a.approval_expires_at

-- `Date.parse(attempt.approvalExpiresAt)`; null was refused before.
abbrev pub parse_optional : Platform → Option String → Option ℕ
parse_optional p none = none
parse_optional p (some s) = p.parse_date s
