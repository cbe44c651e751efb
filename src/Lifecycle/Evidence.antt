-- ===== src/Lifecycle/Evidence.antt =====
-- What the history of an attempt holds for its status (application-lifecycle.ts): the calls that
-- approved, sent and confirmed it.
use vocation_os.Prelude.{ℕ, ◌≡◌, ◌⊎◌, inl, inr, refl, ◌∙◌, true, false, List, some, arith, ok, any}
use vocation_os.Runtime.{at_most}
use vocation_os.Types.{ApprovalReference}
use vocation_os.Approval.{TrustedApprover, validate_approval_reference}
use vocation_os.Submission.{
  SubmissionProof, TrustedCollector, SubmissionProofPolicy, SubmissionProofEvaluation,
  evaluate_submission_proof,
}
use vocation_os.Submission.Confirmed.{IsConfirmed, evaluate_submission_proof-IsConfirmed}
use vocation_os.Lifecycle.{
  prepared, approved, submitted_unconfirmed, confirmed, blocked, ApplicationAttempt, Services,
  approval_scope, proof_expectation, proof_verdict, parse_optional, vouches,
  approve_application_attempt, mark_submission_attempted, confirm_application_attempt,
}
use vocation_os.Lifecycle.Steps.{
  Step, approving, submitting, blocking, confirming, SameTarget, approve_lem, submit_lem, block_lem,
  confirm_lem,
}

pub data Reach (s : Services) (a : ApplicationAttempt) : ApplicationAttempt → Type 0 where
  here : Reach s a a
  next : {b c : ApplicationAttempt} → Reach s a b → Step s b c → Reach s a c

-- The attempt was approved: a call that made it so is in its history, with an approval that was valid
-- then, and the attempt names the approval.
pub record ApprovalEvidence (s : Services) (a b : ApplicationAttempt) : Type 0 where
  pub ready : ApplicationAttempt
  pub granted : ApplicationAttempt
  pub approval : ApprovalReference
  pub trusted : List TrustedApprover
  pub at : ℕ
  pub earlier : Reach s a ready
  pub call : approve_application_attempt s ready approval trusted at ≡ ok granted
  pub later : Reach s granted b
  pub valid :
      (validate_approval_reference s.platform s.approval_schema approval
        (approval_scope s b at)
        trusted).valid
      ≡ true
  pub id : b.approval_id ≡ some approval.approval_id
  pub approver : b.approval_approved_by ≡ some approval.approved_by
  pub key : b.approval_key_id ≡ some approval.key_id
  pub expiry : b.approval_expires_at ≡ some approval.expires_at

-- The attempt was sent: a call of markSubmissionAttempted that succeeded is in its history, after the
-- approval, and at the time of that call the gate had passed, the approval had not run out, and its
-- signer was among those that the call trusted.
pub record SubmissionEvidence (s : Services) (a b : ApplicationAttempt) : Type 0 where
  pub ready : ApplicationAttempt
  pub sent : ApplicationAttempt
  pub trusted : List TrustedApprover
  pub at : ℕ
  pub granted : ApprovalEvidence s a ready
  pub call : mark_submission_attempted s ready trusted at ≡ ok sent
  pub later : Reach s sent b
  pub gate : b.high_stakes_gate_passed ≡ true
  pub unexpired : at_most (parse_optional s.platform b.approval_expires_at) (some at) ≡ false
  pub vouched : any (vouches b.approval_approved_by b.approval_key_id) trusted ≡ true

-- The attempt was confirmed: a call of confirmApplicationAttempt that succeeded is in its history, after
-- the sending, with a collector's proof of the attempt as it was sent, and the attempt names the proof.
pub record ProofEvidence (s : Services) (a b : ApplicationAttempt) : Type 0 where
  pub sent : ApplicationAttempt
  pub proved : ApplicationAttempt
  pub submission : SubmissionEvidence s a sent
  pub same : SameTarget sent b
  pub was_sent : sent.status ≡ submitted_unconfirmed
  pub proof : SubmissionProof
  pub collectors : List TrustedCollector
  pub policy : SubmissionProofPolicy
  pub at : ℕ
  pub verdict : SubmissionProofEvaluation
  pub call : confirm_application_attempt s sent proof collectors policy at ≡ ok (proved, verdict)
  pub later : Reach s proved b
  pub confirmation :
      IsConfirmed s.platform proof collectors
        (proof_expectation s sent at)
        policy
        (s.platform.parse_date (s.platform.to_iso_string at))
  pub id : b.proof_id ≡ some proof.proof_id
  pub receipt : b.proof_receipt_hash ≡ some proof.receipt_hash
  pub collector : b.collector_id ≡ some proof.collector_id

-- What the history of an attempt must hold for its status.
pub record HasHistory (s : Services) (a b : ApplicationAttempt) : Type 0 where
  pub reached : Reach s a b
  pub approval :
      (b.status ≡ approved) ⊎ (b.status ≡ submitted_unconfirmed) ⊎ (b.status ≡ confirmed)
      → ApprovalEvidence s a b
  pub submission :
      (b.status ≡ submitted_unconfirmed) ⊎ (b.status ≡ confirmed) → SubmissionEvidence s a b
  pub proof : b.status ≡ confirmed → ProofEvidence s a b

pub prepared-HasHistory :
    (s : Services) (a : ApplicationAttempt) → a.status ≡ prepared → HasHistory s a a
prepared-HasHistory s a h = record {
  reached = here;
  approval = λ k. absurd (ground arith);
  submission = λ k. absurd (ground arith);
  proof = λ k. absurd (cc);
}

verdict-eq-ok :
    (s : Services) (a : ApplicationAttempt) (proof : SubmissionProof)
    (collectors : List TrustedCollector) (policy : SubmissionProofPolicy) (now : ℕ)
    (v : SubmissionProofEvaluation)
    → proof_verdict s a proof collectors policy now ≡ ok v
    → evaluate_submission_proof s.platform s.proof_schema
        (s.platform.to_iso_string now)
        proof
        collectors
        (proof_expectation s a now)
        policy
      ≡ ok v
verdict-eq-ok s a proof collectors policy now v h = ground arith

-- Two states of an attempt with one target and one approval.
record SameApproval (a b : ApplicationAttempt) : Type 0 where
  target : SameTarget a b
  id : b.approval_id ≡ a.approval_id
  approver : b.approval_approved_by ≡ a.approval_approved_by
  key : b.approval_key_id ≡ a.approval_key_id
  expiry : b.approval_expires_at ≡ a.approval_expires_at
  pub gate : b.high_stakes_gate_passed ≡ a.high_stakes_gate_passed

module _ (s : Services) where
  scope-SameTarget :
      {a b : ApplicationAttempt} (now : ℕ)
      → SameTarget a b
      → approval_scope s b now ≡ approval_scope s a now
  scope-SameTarget now t = ground arith

  Step-ApprovalEvidence :
      {a b c : ApplicationAttempt}
      → Step s b c
      → SameApproval b c
      → ApprovalEvidence s a b
      → ApprovalEvidence s a c
  Step-ApprovalEvidence st same was = record {
    ready = was.ready;
    granted = was.granted;
    approval = was.approval;
    trusted = was.trusted;
    at = was.at;
    earlier = was.earlier;
    call = was.call;
    later = next was.later st;
    valid = rw (scope-SameTarget was.at same.target) was.valid;
    id = same.id ∙ was.id;
    approver = same.approver ∙ was.approver;
    key = same.key ∙ was.key;
    expiry = same.expiry ∙ was.expiry;
  }

  Step-SubmissionEvidence :
      {a b c : ApplicationAttempt}
      → Step s b c
      → SameApproval b c
      → SubmissionEvidence s a b
      → SubmissionEvidence s a c
  Step-SubmissionEvidence st same was = record {
    ready = was.ready;
    sent = was.sent;
    trusted = was.trusted;
    at = was.at;
    granted = was.granted;
    call = was.call;
    later = next was.later st;
    gate = same.gate ∙ was.gate;
    unexpired = rw same.expiry was.unexpired;
    vouched = rw (same.approver, same.key) was.vouched;
  }

  approving-ApprovalEvidence :
      {a b c : ApplicationAttempt} (approval : ApprovalReference) (trusted : List TrustedApprover)
      (now : ℕ)
      → Reach s a b
      → approve_application_attempt s b approval trusted now ≡ ok c
      → ApprovalEvidence s a c
  approving-ApprovalEvidence {a} {b} {c} approval trusted now r h =
      let (at, valid, e) = approve_lem s b c approval trusted now h in
      record {
        ready = b;
        granted = c;
        approval = approval;
        trusted = trusted;
        at = now;
        earlier = r;
        call = h;
        later = here;
        valid = rw e valid;
        id = rw e refl;
        approver = rw e refl;
        key = rw e refl;
        expiry = rw e refl;
      }

  submitting-SubmissionEvidence :
      {a b c : ApplicationAttempt} (trusted : List TrustedApprover) (now : ℕ)
      → ApprovalEvidence s a b
      → mark_submission_attempted s b trusted now ≡ ok c
      → SubmissionEvidence s a c
  submitting-SubmissionEvidence {a} {b} {c} trusted now granted h =
      let (at, gate, _, unexpired, vouched, e) = submit_lem s b c trusted now h in
      record {
        ready = b;
        sent = c;
        trusted = trusted;
        at = now;
        granted = granted;
        call = h;
        later = here;
        gate = rw e gate;
        unexpired = rw e unexpired;
        vouched = rw e vouched;
      }

  confirming-ProofEvidence :
      {a b c : ApplicationAttempt} (proof : SubmissionProof) (collectors : List TrustedCollector)
      (policy : SubmissionProofPolicy) (now : ℕ) (v : SubmissionProofEvaluation)
      → SubmissionEvidence s a b
      → SameTarget b c
      → confirm_application_attempt s b proof collectors policy now ≡ ok (c, v)
      → ProofEvidence s a c
  confirming-ProofEvidence {a} {b} {c} proof collectors policy now v sending same h =
      let (at, verdict, good, e) = confirm_lem s b c proof collectors policy now v h in
      let found =
        evaluate_submission_proof-IsConfirmed s.platform s.proof_schema
          (s.platform.to_iso_string now) proof collectors (proof_expectation s b now) policy
          (s.platform.to_iso_string now) v refl
          (verdict-eq-ok s b proof collectors policy now v verdict) good in
      record {
        sent = b;
        proved = c;
        submission = sending;
        same = same;
        was_sent = at;
        proof = proof;
        collectors = collectors;
        policy = policy;
        at = now;
        verdict = v;
        call = h;
        later = here;
        confirmation = found.1;
        id = rw e refl;
        receipt = rw e refl;
        collector = rw e refl;
      }

  submitting-SameApproval :
      {b c : ApplicationAttempt} (trusted : List TrustedApprover) (now : ℕ)
      → mark_submission_attempted s b trusted now ≡ ok c
      → SameApproval b c
  submitting-SameApproval {b} {c} trusted now h =
      rw (submit_lem s b c trusted now h).5 (ground arith)

  confirming-SameApproval :
      {b c : ApplicationAttempt} (proof : SubmissionProof) (collectors : List TrustedCollector)
      (policy : SubmissionProofPolicy) (now : ℕ) (v : SubmissionProofEvaluation)
      → confirm_application_attempt s b proof collectors policy now ≡ ok (c, v)
      → SameApproval b c
  confirming-SameApproval {b} {c} proof collectors policy now v h =
      rw (confirm_lem s b c proof collectors policy now v h).3 (ground arith)

  pub Step-HasHistory :
      {a b c : ApplicationAttempt} → Step s b c → HasHistory s a b → HasHistory s a c
  Step-HasHistory {a} {b} {c} (approving approval trusted now h) k =
      let is : c.status ≡ approved = rw (approve_lem s b c approval trusted now h).2 refl in
      record {
        reached = next k.reached (approving approval trusted now h);
        approval = λ _. approving-ApprovalEvidence approval trusted now k.reached h;
        submission = λ t. absurd (ground arith);
        proof = λ t. absurd (cc);
      }
  Step-HasHistory {a} {b} {c} (submitting trusted now h) k =
      let st : Step s b c = submitting trusted now h in
      let granted = k.approval (inl (submit_lem s b c trusted now h).0) in
      let is : c.status ≡ submitted_unconfirmed = rw (submit_lem s b c trusted now h).5 refl in
      record {
        reached = next k.reached st;
        approval = λ _. Step-ApprovalEvidence st (submitting-SameApproval trusted now h) granted;
        submission = λ _. submitting-SubmissionEvidence trusted now granted h;
        proof = λ t. absurd (cc);
      }
  Step-HasHistory {a} {b} {c} (blocking reason now h) k =
      let is : c.status ≡ blocked = rw (block_lem s b c reason now h).2 refl in
      record {
        reached = next k.reached (blocking reason now h);
        approval = λ t. absurd (ground arith);
        submission = λ t. absurd (ground arith);
        proof = λ t. absurd (cc);
      }
  Step-HasHistory {a} {b} {c} (confirming proof collectors policy now v h) k =
      let st : Step s b c = confirming proof collectors policy now v h in
      let at = (confirm_lem s b c proof collectors policy now v h).0 in
      let same = confirming-SameApproval proof collectors policy now v h in
      let sending = k.submission (inl at) in
      record {
        reached = next k.reached st;
        approval = λ _. Step-ApprovalEvidence st same (k.approval (inr (inl at)));
        submission = λ _. Step-SubmissionEvidence st same sending;
        proof = λ _. confirming-ProofEvidence proof collectors policy now v sending same.target h;
      }
