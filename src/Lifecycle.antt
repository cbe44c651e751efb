-- ===== src/Lifecycle.antt =====
-- application-lifecycle.ts: one attempt to apply, from its preparation to its confirmation.
mod Attempt
pub mod Steps
pub mod Evidence
pub mod Traces
pub mod Ledger
pub mod Progress
unfoldable pub use Attempt.*
use vocation_os.Prelude.{
  ℕ, Bool, true, false, not, ◌&&◌, ◌||◌, List, [], ◌∷◌, Option, none, some, String, ◌===◌,
  if◌then◌else◌, any, all, Result, ok, err, ◌>>=◌, ◌>>◌, guard, throw_if,
}
use vocation_os.Runtime.{Platform, SchemaValidation, at_most}
use vocation_os.Hash.{◌+++◌}
use vocation_os.Text.{trim, is_truthy}
use vocation_os.Types.{
  ReversibilityTag, Operation, HighStakesFlags, ApprovalReference, ActionLedgerEntry,
}
use vocation_os.Types
use vocation_os.Approval.{
  TrustedApprover, ApprovalScope, ApprovalValidationResult, ActionIntentBinding,
  compute_action_intent_hash, validate_approval_reference,
}
use vocation_os.Submission.{
  SubmissionProof, TrustedCollector, SubmissionProofPolicy, SubmissionProofEvaluation,
  SubmissionProofExpectation, evaluate_submission_proof, is_confirmed,
}

assert_transition : ApplicationAttempt → ApplicationAttemptStatus → Result LifecycleError (Unit {0})
assert_transition a expected = guard (same_status a.status expected) (wrong_status a.status)

module _ (s : Services) where
  validated : ApplicationAttempt → Outcome
  validated a = guard (s.attempt_schema a) schema_invalid >> ok a

  -- The attempt as it is first written; `uuid` is `randomUUID()`.
  unfoldable pub prepared_attempt :
      (uuid : String) (now : ℕ) → ApplicationAttemptInput → ApplicationAttempt
  prepared_attempt uuid now input =
      let attempt_id = "ATT-" +++ s.platform.utc_full_year now +++ "-" +++ uuid in
      record {
        attempt_id = attempt_id;
        opportunity_id = input.opportunity_id;
        packet_hash = input.packet_hash;
        adapter_id = input.adapter_id;
        channel = input.channel;
        reversibility_tag = input.reversibility_tag;
        high_stakes_gate_passed = all is_cleared (flag_values input.high_stakes_flags);
        action_intent_hash = compute_action_intent_hash s.platform (record {
          operation = Operation.auto_apply;
          opportunity_id = input.opportunity_id;
          packet_hash = input.packet_hash;
          adapter_id = input.adapter_id;
          reversibility_tag = input.reversibility_tag;
          attempt_id = some attempt_id;
        });
        status = prepared;
        created_at = s.platform.to_iso_string now;
        updated_at = s.platform.to_iso_string now;
        approval_id = none;
        approval_approved_by = none;
        approval_key_id = none;
        approval_expires_at = none;
        proof_id = none;
        proof_receipt_hash = none;
        collector_id = none;
        blocker = none;
      }

  unfoldable pub create_application_attempt :
      (uuid : String) (now : ℕ) → ApplicationAttemptInput → Outcome
  unfolding validated
  create_application_attempt uuid now input = do
    guard (all is_assessed (flag_values input.high_stakes_flags)) assessment_incomplete
    validated (prepared_attempt uuid now input)

  -- The scope that an approval of this attempt must have.
  abbrev pub approval_scope : ApplicationAttempt → ℕ → ApprovalScope
  approval_scope a now = record {
    operation = Operation.auto_apply;
    opportunity_id = a.opportunity_id;
    packet_hash = a.packet_hash;
    adapter_id = a.adapter_id;
    reversibility_tag = a.reversibility_tag;
    required_field = "application-packet";
    now = now;
    expected_action_intent_hash = some a.action_intent_hash;
  }

  -- The attempts that the operations write.
  abbrev pub approved_attempt : ApplicationAttempt → ApprovalReference → ℕ → ApplicationAttempt
  approved_attempt a approval now = record a {
    status = approved;
    updated_at = s.platform.to_iso_string now;
    approval_id = some approval.approval_id;
    approval_approved_by = some approval.approved_by;
    approval_key_id = some approval.key_id;
    approval_expires_at = some approval.expires_at;
  }

  abbrev pub submitted_attempt : ApplicationAttempt → ℕ → ApplicationAttempt
  submitted_attempt a now = record a {
    status = submitted_unconfirmed;
    updated_at = s.platform.to_iso_string now;
  }

  abbrev pub blocked_attempt : ApplicationAttempt → String → ℕ → ApplicationAttempt
  blocked_attempt a reason now = record a {
    status = blocked;
    updated_at = s.platform.to_iso_string now;
    blocker = some (trim reason);
  }

  abbrev pub confirmed_attempt : ApplicationAttempt → SubmissionProof → ℕ → ApplicationAttempt
  confirmed_attempt a proof now = record a {
    status = confirmed;
    updated_at = s.platform.to_iso_string now;
    proof_id = some proof.proof_id;
    proof_receipt_hash = some proof.receipt_hash;
    collector_id = some proof.collector_id;
  }

  unfoldable pub approve_application_attempt :
      ApplicationAttempt → ApprovalReference → List TrustedApprover → ℕ → Outcome
  unfolding assert_transition validated
  approve_application_attempt a approval trusted now =
      let verdict =
        validate_approval_reference s.platform s.approval_schema approval (approval_scope a now)
          trusted in
      do
        assert_transition a prepared
        guard verdict.valid (approval_rejected verdict.blocked_by)
        validated (approved_attempt a approval now)

  unfoldable pub mark_submission_attempted : ApplicationAttempt → List TrustedApprover → ℕ → Outcome
  unfolding assert_transition validated
  mark_submission_attempted a trusted now = do
    assert_transition a approved
    guard a.high_stakes_gate_passed high_stakes_gate_not_passed
    throw_if (lacks_approval a) approval_binding_incomplete
    throw_if (at_most (parse_optional s.platform a.approval_expires_at) (some now)) approval_expired
    guard (any (vouches a.approval_approved_by a.approval_key_id) trusted)
        approver_no_longer_trusted
    validated (submitted_attempt a now)

  pub block_application_attempt : ApplicationAttempt → String → ℕ → Outcome
  unfolding validated
  block_application_attempt a reason now = do
    throw_if (same_status a.status confirmed) confirmed_is_final
    guard (is_truthy (trim reason)) blocker_required
    validated (blocked_attempt a reason now)

  abbrev pub proof_expectation : ApplicationAttempt → ℕ → SubmissionProofExpectation
  proof_expectation a now = record {
    attempt_id = a.attempt_id;
    action_intent_hash = a.action_intent_hash;
    opportunity_id = a.opportunity_id;
    packet_hash = a.packet_hash;
    adapter_id = a.adapter_id;
    submitted_at = a.updated_at;
    evaluated_at = some (s.platform.to_iso_string now);
  }

  -- The verdict on a proof; its exception passes through.
  abbrev pub proof_verdict :
      ApplicationAttempt
      → SubmissionProof
      → List TrustedCollector
      → SubmissionProofPolicy
      → ℕ
      → Result LifecycleError SubmissionProofEvaluation
  proof_verdict a proof collectors policy now =
      elim (evaluate_submission_proof s.platform s.proof_schema (s.platform.to_iso_string now) proof
        collectors (proof_expectation a now) policy) [
          | ok v ↦ ok v
          | err e ↦ err proof_key_unreadable
        ]

  unfoldable pub confirm_application_attempt :
      ApplicationAttempt
      → SubmissionProof
      → List TrustedCollector
      → SubmissionProofPolicy
      → ℕ
      → Result LifecycleError (ApplicationAttempt × SubmissionProofEvaluation)
  unfolding assert_transition validated
  confirm_application_attempt a proof collectors policy now = do
    assert_transition a submitted_unconfirmed
    v ← proof_verdict a proof collectors policy now
    guard (is_confirmed v.status) (proof_not_confirmed v.reasons)
    b ← validated (confirmed_attempt a proof now)
    ok (b, v)

  -- `action_id` is `createActionId(now)`.
  pub confirmation_entry :
      (action_id : String) → ApplicationAttempt → SubmissionProof → ℕ → ActionLedgerEntry
  confirmation_entry action_id a proof now = record {
    action_id = action_id;
    timestamp = s.platform.to_iso_string now;
    mode = "/application-packet";
    opportunity_id = a.opportunity_id;
    reversibility_tag = a.reversibility_tag;
    evidence_gate_passed = true;
    approval_required = true;
    approval_received = true;
    high_stakes_gate_passed = true;
    result = Types.confirmed;
    blocked_by = none;
    confirmation_evidence_pointer =
        some (
          "proof:" +++ proof.proof_id +++ ":" +++ proof.receipt_hash +++ ":"
          +++ proof.collector_id);
  }

  unfoldable pub confirmation_ledger_entry :
      (action_id : String)
      → ApplicationAttempt
      → SubmissionProof
      → ℕ
      → Result LifecycleError ActionLedgerEntry
  confirmation_ledger_entry action_id a proof now = do
    throw_if
        (not (same_status a.status confirmed)
          || not (is_some_text a.proof_id proof.proof_id)
          || not (is_some_text a.proof_receipt_hash proof.receipt_hash)
          || not (is_some_text a.collector_id proof.collector_id))
        not_collector_bound
    throw_if (not a.high_stakes_gate_passed || lacks_approval a) gates_not_passed
    guard (s.entry_schema (confirmation_entry action_id a proof now)) schema_invalid
    ok (confirmation_entry action_id a proof now)
