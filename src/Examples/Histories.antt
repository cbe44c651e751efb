-- ===== src/Examples/Histories.antt =====
-- The theorems on attempts, at the attempt that was confirmed.
use vocation_os.Prelude.{◌≡◌, refl, [], ◌∷◌, none, ok, arith}
use vocation_os.Hash.{stringify, stable_stringify, sha256}
use vocation_os.Text.{matches, decimal}
use vocation_os.Approval.{compute_action_intent_hash}
use vocation_os.Submission.{
  default_submission_proof_policy, compute_submission_receipt_hash, evaluate_submission_proof,
  evaluate_scope, is_bound, evaluate_times, evaluate_receipt, evaluate_signals, negative_indicators,
  is_negative, positive_indicator_exists,
}
use vocation_os.Submission.Confirmed.{IsConfirmed, evaluate_submission_proof-IsConfirmed}
use vocation_os.Lifecycle.{
  confirmed, blocked, proof_expectation, mark_submission_attempted, submitted_attempt,
  confirmation_entry, confirmation_ledger_entry, prepared_attempt,
}
use vocation_os.Lifecycle.Steps.{
  approving, submitting, confirming, ◌⟶◌, SameTarget, IsConsistent, Step-⟶,
}
use vocation_os.Lifecycle.Traces.{history-IsConsistent, confirmed_needs_evidence, final_statuses}
use vocation_os.Lifecycle.Evidence.{
  Reach, here, next, ApprovalEvidence, SubmissionEvidence, ProofEvidence,
}
use vocation_os.Lifecycle.Ledger.{confirm-confirmation_ledger_entry}
use vocation_os.Lifecycle.Progress.{approve-mark_submission_attempted}
use vocation_os.Examples.Base.{platform, approver}
use vocation_os.Examples.Attempts.{
  services, input, first, second, third, fourth, approval, proof, collector, verdict, created,
  approved_second, sent_third, confirmed_fourth,
}

to_third : Reach services first third
to_third =
    next (next here (approving approval (approver ∷ []) 2000 approved_second))
      (submitting (approver ∷ []) 3000 sent_third)

path : Reach services first fourth
path = next to_third (
    confirming proof (collector ∷ []) default_submission_proof_policy 4000 verdict confirmed_fourth)

confirmed_needs_evidence_example :
    ApprovalEvidence services first fourth
    × SubmissionEvidence services first fourth
    × ProofEvidence services first fourth
confirmed_needs_evidence_example =
    confirmed_needs_evidence services "uuid" 1000 input first fourth created path refl

history-IsConsistent_example : IsConsistent fourth × SameTarget first fourth
history-IsConsistent_example =
    history-IsConsistent services "uuid" 1000 input first fourth created path

final_statuses_example :
    (fourth.status ≡ confirmed → fourth ≡ fourth)
    × (fourth.status ≡ blocked → fourth.status ≡ blocked)
final_statuses_example = final_statuses services fourth fourth here

Step-edge_example : third.status ⟶ fourth.status
Step-edge_example = Step-⟶ services (
    confirming proof (collector ∷ []) default_submission_proof_policy 4000 verdict confirmed_fourth)

approve-mark_submission_attempted_example :
    mark_submission_attempted services second (approver ∷ []) 3000
    ≡ ok (submitted_attempt services second 3000)
unfolding prepared_attempt
approve-mark_submission_attempted_example =
    approve-mark_submission_attempted services first second approval (approver ∷ []) 2000 3000 5000
      approved_second refl refl (omega arith) refl

confirm-confirmation_ledger_entry_example :
    confirmation_ledger_entry services "ACT-1" fourth proof 4000
    ≡ ok (confirmation_entry services "ACT-1" fourth proof 4000)
confirm-confirmation_ledger_entry_example =
    confirm-confirmation_ledger_entry services "ACT-1" third fourth proof (collector ∷ [])
      default_submission_proof_policy 4000 verdict
      (history-IsConsistent services "uuid" 1000 input first third created to_third).0
      confirmed_fourth refl

entered :
    confirmation_ledger_entry services "ACT-1" fourth proof 4000
    ≡ ok (confirmation_entry services "ACT-1" fourth proof 4000)
unfolding confirmation_ledger_entry prepared_attempt compute_submission_receipt_hash sha256
    stringify stable_stringify compute_action_intent_hash
entered = refl

found_confirmed :
    evaluate_submission_proof platform services.proof_schema "T4000" proof
      (collector ∷ [])
      (proof_expectation services third 4000)
      default_submission_proof_policy
    ≡ ok verdict
unfolding prepared_attempt evaluate_submission_proof evaluate_scope is_bound evaluate_times
    evaluate_receipt evaluate_signals negative_indicators is_negative positive_indicator_exists
    stringify stable_stringify sha256 matches compute_action_intent_hash decimal
    compute_submission_receipt_hash
found_confirmed = refl

evaluate_submission_proof-IsConfirmed_example :
    (services.proof_schema proof ≡ none)
    × IsConfirmed platform proof
        (collector ∷ [])
        (proof_expectation services third 4000)
        default_submission_proof_policy
        (platform.parse_date "T4000")
unfolding decimal
evaluate_submission_proof-IsConfirmed_example =
    evaluate_submission_proof-IsConfirmed platform services.proof_schema "T4000" proof
      (collector ∷ []) (proof_expectation services third 4000) default_submission_proof_policy
      "T4000" verdict refl found_confirmed refl
