-- ===== src/Lifecycle/Progress.antt =====
-- An approved attempt can be sent while its approval lasts (application-lifecycle.ts).
use vocation_os.Prelude.{ℕ, ◌<◌, ◌≡◌, true, List, some, arith, ok, find_holds, any_of_find}
use vocation_os.Types.{ApprovalReference}
use vocation_os.Approval.{TrustedApprover, is_signer}
use vocation_os.Approval.Granted.{validate_steps}
use vocation_os.Lifecycle.{
  ApplicationAttempt, Services, approval_scope, submitted_attempt, approve_application_attempt,
  mark_submission_attempted,
}
use vocation_os.Lifecycle.Steps.{approve_lem}

-- After an approval the attempt can be sent, by the same registry: at any time before the approval's
-- readable expiry, if its high-stakes gate passed and the sent attempt fits its schema.
pub approve-mark_submission_attempted :
    (s : Services) (a b : ApplicationAttempt) (approval : ApprovalReference)
    (trusted : List TrustedApprover) (now then until : ℕ)
    → approve_application_attempt s a approval trusted now ≡ ok b
    → a.high_stakes_gate_passed ≡ true
    → s.platform.parse_date approval.expires_at ≡ some until
    → then < until
    → s.attempt_schema (submitted_attempt s b then) ≡ true
    → mark_submission_attempted s b trusted then ≡ ok (submitted_attempt s b then)
unfolding mark_submission_attempted
approve-mark_submission_attempted s a b approval trusted now then until h gate ends before fits =
    let (at, valid, e) = approve_lem s a b approval trusted now h in
    let (_, (t, found, _), _) =
      (validate_steps s.platform s.approval_schema approval (approval_scope s a now) trusted).0
        valid in
    let signer = is_signer approval.approved_by approval.key_id in
    let vouched = any_of_find signer signer trusted t found (find_holds signer trusted t found) in
    rw e (ground arith)
