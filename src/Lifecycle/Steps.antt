-- ===== src/Lifecycle/Steps.antt =====
-- The operations of application-lifecycle.ts as steps between attempts, and what every step keeps.
use vocation_os.Prelude.{
  ℕ, ◌≡◌, ◌≢◌, ◌⊎◌, refl, true, false, List, none, some, String, arith, ok, any, all,
}
use vocation_os.Runtime.{at_most}
use vocation_os.Text.{is_truthy, is_present, trim}
use vocation_os.Types.{ApprovalReference}
use vocation_os.Approval.{TrustedApprover, validate_approval_reference}
use vocation_os.Submission.{
  SubmissionProof, TrustedCollector, SubmissionProofPolicy, SubmissionProofEvaluation,
}
use vocation_os.Submission
use vocation_os.Lifecycle.{
  ApplicationAttemptStatus, prepared, approved, submitted_unconfirmed, confirmed, blocked,
  ApplicationAttempt, ApplicationAttemptInput, Services, approval_scope, create_application_attempt,
  approve_application_attempt, mark_submission_attempted, block_application_attempt,
  confirm_application_attempt, parse_optional, prepared_attempt, approved_attempt,
  submitted_attempt, blocked_attempt, confirmed_attempt, proof_verdict, lacks_approval, vouches,
  is_assessed, flag_values,
}

-- A successful call of an operation takes attempt `a` to attempt `b`.
pub data Step (s : Services) (a b : ApplicationAttempt) : Type 0 where
  approving :
      (approval : ApprovalReference) (trusted : List TrustedApprover) (now : ℕ)
      → approve_application_attempt s a approval trusted now ≡ ok b
      → Step s a b
  submitting :
      (trusted : List TrustedApprover) (now : ℕ)
      → mark_submission_attempted s a trusted now ≡ ok b
      → Step s a b
  blocking :
      (reason : String) (now : ℕ) → block_application_attempt s a reason now ≡ ok b → Step s a b
  confirming :
      (proof : SubmissionProof) (collectors : List TrustedCollector)
      (policy : SubmissionProofPolicy) (now : ℕ) (v : SubmissionProofEvaluation)
      → confirm_application_attempt s a proof collectors policy now ≡ ok (b, v)
      → Step s a b

-- The edges of the state machine.
infix 40 ◌⟶◌
pub data ◌⟶◌ : ApplicationAttemptStatus → ApplicationAttemptStatus → Type 0 where
  approve : prepared ⟶ approved
  submit : approved ⟶ submitted_unconfirmed
  confirm : submitted_unconfirmed ⟶ confirmed
  block : {s : ApplicationAttemptStatus} → s ≢ confirmed → s ⟶ blocked

-- What an attempt is for, which no operation changes.
pub record SameTarget (a b : ApplicationAttempt) : Type 0 where
  pub attempt : b.attempt_id ≡ a.attempt_id
  pub opportunity : b.opportunity_id ≡ a.opportunity_id
  pub packet : b.packet_hash ≡ a.packet_hash
  pub adapter : b.adapter_id ≡ a.adapter_id
  pub channel : b.channel ≡ a.channel
  pub tag : b.reversibility_tag ≡ a.reversibility_tag
  pub gate : b.high_stakes_gate_passed ≡ a.high_stakes_gate_passed
  pub intent : b.action_intent_hash ≡ a.action_intent_hash
  pub created : b.created_at ≡ a.created_at

abbrev pub IsApproved : ApplicationAttempt → Type 0
IsApproved a =
    (a.approval_id ≢ none)
    × (a.approval_approved_by ≢ none)
    × (a.approval_key_id ≢ none)
    × (a.approval_expires_at ≢ none)

abbrev pub IsUnproved : ApplicationAttempt → Type 0
IsUnproved a = (a.proof_id ≡ none) × (a.proof_receipt_hash ≡ none) × (a.collector_id ≡ none)

-- The fields of an attempt fit its status.
pub record IsConsistent (a : ApplicationAttempt) : Type 0 where
  pub approval :
      (a.status ≡ approved) ⊎ (a.status ≡ submitted_unconfirmed) ⊎ (a.status ≡ confirmed)
      → IsApproved a
  pub unapproved : a.status ≡ prepared → a.approval_id ≡ none
  pub gated :
      (a.status ≡ submitted_unconfirmed) ⊎ (a.status ≡ confirmed) → a.high_stakes_gate_passed ≡ true
  pub proved :
      a.status ≡ confirmed
      → (a.proof_id ≢ none) × (a.proof_receipt_hash ≢ none) × (a.collector_id ≢ none)
  pub unproved : a.status ≢ confirmed → IsUnproved a
  pub reason : a.status ≡ blocked → is_present a.blocker ≡ true
  pub no_reason : a.status ≢ blocked → a.blocker ≡ none

-- What a successful call has checked, and the attempt that it gives.
module _ (s : Services) (a : ApplicationAttempt) where
  create_lem :
      (uuid : String) (now : ℕ) (input : ApplicationAttemptInput)
      → create_application_attempt s uuid now input ≡ ok a
      → (all is_assessed (flag_values input.high_stakes_flags) ≡ true)
        × (a ≡ prepared_attempt s uuid now input)
  unfolding create_application_attempt
  create_lem uuid now input h = (ground arith, ground arith)

  module _ (b : ApplicationAttempt) where
    pub approve_lem :
        (approval : ApprovalReference) (trusted : List TrustedApprover) (now : ℕ)
        → approve_application_attempt s a approval trusted now ≡ ok b
        → (a.status ≡ prepared)
          × ((validate_approval_reference s.platform s.approval_schema approval
                (approval_scope s a now)
                trusted).valid
              ≡ true)
          × (b ≡ approved_attempt s a approval now)
    unfolding approve_application_attempt
    approve_lem approval trusted now h = (ground arith, ground arith, ground arith)

    pub submit_lem :
        (trusted : List TrustedApprover) (now : ℕ)
        → mark_submission_attempted s a trusted now ≡ ok b
        → (a.status ≡ approved)
          × (a.high_stakes_gate_passed ≡ true)
          × (lacks_approval a ≡ false)
          × (at_most (parse_optional s.platform a.approval_expires_at) (some now) ≡ false)
          × (any (vouches a.approval_approved_by a.approval_key_id) trusted ≡ true)
          × (b ≡ submitted_attempt s a now)
    unfolding mark_submission_attempted
    submit_lem trusted now h =
        (ground arith, ground arith, ground arith, ground arith, ground arith, ground arith)

    pub block_lem :
        (reason : String) (now : ℕ)
        → block_application_attempt s a reason now ≡ ok b
        → (a.status ≢ confirmed)
          × (is_truthy (trim reason) ≡ true)
          × (b ≡ blocked_attempt s a reason now)
    unfolding block_application_attempt
    block_lem reason now h = (ground arith, ground arith, ground arith)

    pub confirm_lem :
        (proof : SubmissionProof) (collectors : List TrustedCollector)
        (policy : SubmissionProofPolicy) (now : ℕ) (v : SubmissionProofEvaluation)
        → confirm_application_attempt s a proof collectors policy now ≡ ok (b, v)
        → (a.status ≡ submitted_unconfirmed)
          × (proof_verdict s a proof collectors policy now ≡ ok v)
          × (v.status ≡ Submission.confirmed)
          × (b ≡ confirmed_attempt s a proof now)
    unfolding confirm_application_attempt
    confirm_lem proof collectors policy now v h =
        (ground arith, ground arith, ground arith, ground arith)

-- A created attempt is prepared, and its fields fit.
pub create-IsConsistent :
    (s : Services) (a : ApplicationAttempt) (uuid : String) (now : ℕ)
    (input : ApplicationAttemptInput)
    → create_application_attempt s uuid now input ≡ ok a
    → IsConsistent a × (a.status ≡ prepared)
unfolding prepared_attempt
create-IsConsistent s a uuid now input h =
    rw (create_lem s a uuid now input h).1 (ground arith, refl)

module _ (s : Services) where
  -- An operation that succeeds follows an edge of the state machine.
  pub Step-⟶ : {a b : ApplicationAttempt} → Step s a b → a.status ⟶ b.status
  Step-⟶ {a} {b} (approving approval trusted now h) =
      let (at, _, e) = approve_lem s a b approval trusted now h in rw (e, at) approve
  Step-⟶ {a} {b} (submitting trusted now h) =
      let (at, _, _, _, _, e) = submit_lem s a b trusted now h in rw (e, at) submit
  Step-⟶ {a} {b} (blocking reason now h) =
      let (open_yet, _, e) = block_lem s a b reason now h in rw e (block open_yet)
  Step-⟶ {a} {b} (confirming proof collectors policy now v h) =
      let (at, _, _, e) = confirm_lem s a b proof collectors policy now v h in rw (e, at) confirm

  -- No operation changes what an attempt is for.
  pub Step-SameTarget : {a b : ApplicationAttempt} → Step s a b → SameTarget a b
  Step-SameTarget {a} {b} (approving approval trusted now h) =
      rw (approve_lem s a b approval trusted now h).2 (ground arith)
  Step-SameTarget {a} {b} (submitting trusted now h) =
      rw (submit_lem s a b trusted now h).5 (ground arith)
  Step-SameTarget {a} {b} (blocking reason now h) =
      rw (block_lem s a b reason now h).2 (ground arith)
  Step-SameTarget {a} {b} (confirming proof collectors policy now v h) =
      rw (confirm_lem s a b proof collectors policy now v h).3 (ground arith)

  -- Every operation keeps the fields of an attempt fitting its status.
  pub Step-IsConsistent : {a b : ApplicationAttempt} → Step s a b → IsConsistent a → IsConsistent b
  Step-IsConsistent {a} {b} (approving approval trusted now h) c =
      let (at, _, e) = approve_lem s a b approval trusted now h in rw e (ground arith)
  Step-IsConsistent {a} {b} (submitting trusted now h) c =
      let (at, gate, _, _, _, e) = submit_lem s a b trusted now h in rw e (ground arith)
  Step-IsConsistent {a} {b} (blocking reason now h) c =
      let (open_yet, given, e) = block_lem s a b reason now h in rw e (ground arith)
  Step-IsConsistent {a} {b} (confirming proof collectors policy now v h) c =
      let (at, _, _, e) = confirm_lem s a b proof collectors policy now v h in rw e (ground arith)
