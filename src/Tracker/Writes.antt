-- ===== src/Tracker/Writes.antt =====
-- Every write of the tracker (storage/application-tracker.ts) is a step of the stored attempt.
use vocation_os.Prelude.{ℕ, suc, ◌≡◌, ◌⊎◌, false, List, some, String, ok}
use vocation_os.Hash.{Json}
use vocation_os.Types.{ApprovalReference, ActionLedgerEntry}
use vocation_os.Approval.{TrustedApprover}
use vocation_os.Submission.{SubmissionProof, SubmissionProofEvaluation, TrustedCollector}
use vocation_os.Lifecycle.{ApplicationAttempt, Services}
use vocation_os.Lifecycle.Steps.{Step}
use vocation_os.Repository.{DomainDescriptor, DomainEvent, EventStore, get, value_hash_of}
use vocation_os.Tracker.{
  TrackerWriteContext, Stored, approve, mark_submitted, block_attempt, confirm_attempt,
}

module _ (s : Services) (d : DomainDescriptor ApplicationAttempt)
    (es : EventStore ApplicationAttempt) where
  -- A successful call of an operation, from the store `st` to the store `t`, with its record.
  pub data Write (st t : es.Store) (id : String) (expected : ℕ) (r : Stored) : Type 0 where
    approves :
        (context : TrackerWriteContext) (trusted : List TrustedApprover)
        (approval : ApprovalReference)
        → approve s d es st id expected context trusted approval ≡ ok (r, t)
        → Write st t id expected r
    submits :
        (context : TrackerWriteContext) (trusted : List TrustedApprover)
        → mark_submitted s d es st id expected context trusted ≡ ok (r, t)
        → Write st t id expected r
    blocks :
        (context : TrackerWriteContext) (blocker : String)
        → block_attempt s d es st id expected context blocker ≡ ok (r, t)
        → Write st t id expected r
    confirms :
        (context : TrackerWriteContext)
        (audit : SubmissionProof → SubmissionProofEvaluation → ActionLedgerEntry → Json)
        (action_id : String) (collectors : List TrustedCollector) (proof : SubmissionProof)
        → confirm_attempt s d es st id expected context audit action_id collectors proof ≡ ok (r, t)
        → Write st t id expected r

  -- The write found the attempt at the version it expected, and made a step of it: `next` is what it
  -- became, and the store afterwards is the one before with an event appended under the id of `next`
  -- that holds it with the next version, unless an earlier write with the same operation id
  -- has stored a value of the same digest, which is then the result.
  pub record IsTracked (st t : es.Store) (id : String) (expected : ℕ) (r : Stored) : Type 0 where
    pub current : Stored
    pub found : get s.platform d es st id false ≡ ok (some current)
    pub version : current.version ≡ expected
    pub next : ApplicationAttempt
    pub step : Step s current.value next
    pub kept :
        ((r.value ≡ next)
          × (r.version ≡ suc expected)
          × ((e : DomainEvent ApplicationAttempt) × (e.stored ≡ r)
              × (e.aggregate_id ≡ d.id_of next)
              × (es.append st e ≡ some t)))
        ⊎ ((t ≡ st) × (r.value_hash ≡ value_hash_of s.platform d next))
