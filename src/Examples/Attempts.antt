-- ===== src/Examples/Attempts.antt =====
-- One application from its preparation to its confirmation.
use vocation_os.Prelude.{◌≡◌, refl, true, [], ◌∷◌, none, ok}
use vocation_os.Hash.{◌+++◌, stringify, stable_stringify, sha256}
use vocation_os.Types.{ApprovalReference, r1}
use vocation_os.Types
use vocation_os.Approval.{
  validate_approval_reference, validate_window, validate_binding, signature_valid,
  expected_intent_hash, compute_action_intent_hash, unsigned_approval, binding_json,
}
use vocation_os.Submission.{
  SubmissionObservation, SubmissionProof, TrustedCollector, confirmation_page,
  compute_submission_receipt_hash, evaluate_submission_proof, evaluate_scope, is_bound,
  evaluate_times, evaluate_receipt, evaluate_signals, negative_indicators, is_negative,
  positive_indicator_exists, SubmissionProofEvaluation, default_submission_proof_policy,
}
use vocation_os.Submission
use vocation_os.Text.{matches, decimal}
use vocation_os.Lifecycle.{
  ApplicationAttempt, ApplicationAttemptInput, Services, ats_form, prepared_attempt,
  approved_attempt, submitted_attempt, confirmed_attempt, create_application_attempt,
  approve_application_attempt, mark_submission_attempted, confirm_application_attempt,
}
use vocation_os.Examples.Base.{platform, accept_any, approver, signed_approval, no_flags}

abbrev pub services : Services
services = record {
  platform = platform;
  approval_schema = accept_any;
  proof_schema = λ proof. none;
  attempt_schema = λ a. true;
  entry_schema = λ e. true;
}

abbrev pub input : ApplicationAttemptInput
input = record {
  opportunity_id = "OPP-1";
  packet_hash = "sha256:packet";
  adapter_id = "local-fixture";
  channel = ats_form;
  reversibility_tag = r1;
  high_stakes_flags = no_flags;
}

abbrev pub first : ApplicationAttempt
first = prepared_attempt services "uuid" 1000 input

pub created : create_application_attempt services "uuid" 1000 input ≡ ok first
unfolding create_application_attempt
created = refl

abbrev pub approval : ApprovalReference
approval = signed_approval (record {
  approval_id = "APP-1";
  operation = Types.auto_apply;
  approved_by = "operator";
  key_id = "K1";
  approved_at = "T900";
  expires_at = "T5000";
  approval_text_hash = "sha256:text";
  opportunity_id = "OPP-1";
  packet_hash = "sha256:packet";
  adapter_id = "local-fixture";
  action_intent_hash = first.action_intent_hash;
  allowed_fields = "application-packet" ∷ [];
  signature = "";
})

abbrev pub second : ApplicationAttempt
second = approved_attempt services first approval 2000

pub approved_second :
    approve_application_attempt services first approval (approver ∷ []) 2000 ≡ ok second
unfolding prepared_attempt approve_application_attempt validate_approval_reference validate_window
    validate_binding signature_valid expected_intent_hash compute_action_intent_hash
    unsigned_approval binding_json stringify stable_stringify sha256
approved_second = refl

abbrev pub third : ApplicationAttempt
third = submitted_attempt services second 3000

pub sent_third : mark_submission_attempted services second (approver ∷ []) 3000 ≡ ok third
unfolding prepared_attempt mark_submission_attempted
sent_third = refl

abbrev pub observation : SubmissionObservation
observation = record {
  collector_id = "COL-1";
  collector_version = "1";
  key_id = "CK1";
  attempt_id = first.attempt_id;
  action_intent_hash = first.action_intent_hash;
  opportunity_id = "OPP-1";
  packet_hash = "sha256:packet";
  adapter_id = "local-fixture";
  kind = confirmation_page;
  captured_at = "T3500";
  source_domain = "jobs.example";
  source_pointer = "page:1";
  indicators = "Your application has been received." ∷ [];
  recipient_domain = none;
  attachment_count = none;
  reference_id = none;
  sent_at = none;
  payload_hash = "sha256:payload";
}

abbrev pub proof : SubmissionProof
proof = record {
  observation = observation;
  proof_id = "PRF-1";
  receipt_hash = compute_submission_receipt_hash platform observation;
  signature = "CPEM:" +++ compute_submission_receipt_hash platform observation;
}

abbrev pub collector : TrustedCollector
collector = record {
  collector_id = "COL-1";
  key_id = "CK1";
  public_key_pem = "CPEM";
  allowed_adapters = "local-fixture" ∷ [];
  allowed_source_domains = "jobs.example" ∷ [];
  allowed_kinds = confirmation_page ∷ [];
}

abbrev pub fourth : ApplicationAttempt
fourth = confirmed_attempt services third proof 4000

abbrev pub verdict : SubmissionProofEvaluation
verdict = record {
  proof_id = "PRF-1";
  opportunity_id = "OPP-1";
  status = Submission.confirmed;
  reasons = "trusted collector confirms completion" ∷ [];
  ledger_eligible = true;
  collector_id = "COL-1";
}

pub confirmed_fourth :
    confirm_application_attempt services third proof
      (collector ∷ [])
      default_submission_proof_policy
      4000
    ≡ ok (fourth, verdict)
unfolding prepared_attempt confirm_application_attempt evaluate_submission_proof evaluate_scope
    is_bound evaluate_times evaluate_receipt evaluate_signals negative_indicators is_negative
    positive_indicator_exists stringify stable_stringify sha256 matches compute_action_intent_hash
    decimal compute_submission_receipt_hash
confirmed_fourth = refl
