-- ===== src/Lifecycle/Traces.antt =====
-- Whole histories of an attempt (application-lifecycle.ts): any operations, in any order, by any
-- callers, of which those that fail change nothing.
use vocation_os.Prelude.{ℕ, ◌≡◌, ◌≢◌, inr, refl, ap, ◌∙◌, String, arith, ok}
use vocation_os.Lifecycle.{
  ApplicationAttemptStatus, prepared, confirmed, blocked, ApplicationAttempt,
  ApplicationAttemptInput, Services, create_application_attempt,
}
use vocation_os.Lifecycle.Steps.{
  ◌⟶◌, SameTarget, IsConsistent, create-IsConsistent, Step-⟶, Step-SameTarget, Step-IsConsistent,
}
use vocation_os.Lifecycle.Evidence.{
  Reach, here, next, ApprovalEvidence, SubmissionEvidence, ProofEvidence, HasHistory,
  prepared-HasHistory, Step-HasHistory,
}

module _ (s : Services) where
  Reach-HasHistory :
      {a b : ApplicationAttempt} → Reach s a b → a.status ≡ prepared → HasHistory s a b
  Reach-HasHistory {a} here h = prepared-HasHistory s a h
  Reach-HasHistory (next r st) h = Step-HasHistory s st (Reach-HasHistory r h)

  Reach-IsConsistent : {a b : ApplicationAttempt} → Reach s a b → IsConsistent a → IsConsistent b
  Reach-IsConsistent here h = h
  Reach-IsConsistent (next r st) h = Step-IsConsistent s st (Reach-IsConsistent r h)

  Reach-SameTarget : {a b : ApplicationAttempt} → Reach s a b → SameTarget a b
  Reach-SameTarget here = ground arith
  Reach-SameTarget (next r st) =
      let before = Reach-SameTarget r in let last = Step-SameTarget s st in ground arith

-- Whatever operations run on a created attempt, its fields fit its status, and it is still for the
-- same opportunity, packet, adapter, channel and intent.
pub history-IsConsistent :
    (s : Services) (uuid : String) (now : ℕ) (input : ApplicationAttemptInput)
    (a b : ApplicationAttempt)
    → create_application_attempt s uuid now input ≡ ok a
    → Reach s a b
    → IsConsistent b × SameTarget a b
history-IsConsistent s uuid now input a b h r =
    (Reach-IsConsistent s r (create-IsConsistent s a uuid now input h).0, Reach-SameTarget s r)

-- An attempt that is confirmed, after any operations, has these calls in its history, in this order:
-- one that approved it, with an approval of its own target that was valid then and that it names;
-- one that sent it, when its gate had passed, its approval had not run out and the signer was among
-- those trusted; and one that confirmed it, with a signed proof of that very attempt, which it names.
pub confirmed_needs_evidence :
    (s : Services) (uuid : String) (now : ℕ) (input : ApplicationAttemptInput)
    (a b : ApplicationAttempt)
    → create_application_attempt s uuid now input ≡ ok a
    → Reach s a b
    → b.status ≡ confirmed
    → ApprovalEvidence s a b × SubmissionEvidence s a b × ProofEvidence s a b
confirmed_needs_evidence s uuid now input a b h r at =
    let k = Reach-HasHistory s r (create-IsConsistent s a uuid now input h).1 in
    (k.approval (inr (inr at)), k.submission (inr at), k.proof at)

not_from_confirmed : {x y : ApplicationAttemptStatus} → x ⟶ y → x ≢ confirmed
not_from_confirmed ◌⟶◌.approve = λ e. cc
not_from_confirmed ◌⟶◌.submit = λ e. cc
not_from_confirmed ◌⟶◌.confirm = λ e. cc
not_from_confirmed (◌⟶◌.block n) = n

from_blocked : {x y : ApplicationAttemptStatus} → x ⟶ y → x ≡ blocked → y ≡ blocked
from_blocked ◌⟶◌.approve e = cc
from_blocked ◌⟶◌.submit e = cc
from_blocked ◌⟶◌.confirm e = cc
from_blocked (◌⟶◌.block n) e = refl

-- A confirmed attempt is final: whatever operations run on it, it stays as it is. A blocked one stays
-- blocked.
pub final_statuses :
    (s : Services) (a b : ApplicationAttempt)
    → Reach s a b
    → (a.status ≡ confirmed → b ≡ a) × (a.status ≡ blocked → b.status ≡ blocked)
final_statuses s a b here = (λ e. refl, λ e. e)
final_statuses s a c (next {b} r st) =
    let (stays, blocked_yet) = final_statuses s a b r in
    let edge = Step-⟶ s st in
    (
      λ e. absurd (not_from_confirmed edge (ap (λ x. x.status) (stays e) ∙ e)),
      λ e. from_blocked edge (blocked_yet e),
    )
