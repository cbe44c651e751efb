-- ===== src/Tracker.antt =====
-- storage/application-tracker.ts: the operations on an attempt, made on its stored record.
-- `audit` is how the values that a confirmation keeps for the audit appear as JSON.
pub mod Writes
use vocation_os.Prelude.{
  ℕ, Bool, false, List, Option, none, some, String, ◌==◌, Result, ok, err, ◌>>=◌, ◌>>◌, guard,
}
use vocation_os.Hash.{Json}
use vocation_os.Types.{ApprovalReference, ActionLedgerEntry}
use vocation_os.Approval.{TrustedApprover}
use vocation_os.Submission.{
  SubmissionProof, SubmissionProofEvaluation, TrustedCollector, default_submission_proof_policy,
}
use vocation_os.Lifecycle.{
  ApplicationAttempt, Services, LifecycleError, approve_application_attempt,
  mark_submission_attempted, block_application_attempt, confirm_application_attempt,
  confirmation_ledger_entry,
}
use vocation_os.Repository.{
  VersionedDomainRecord, DomainAuthorityBinding, DomainDescriptor, DomainError, EventStore, get,
  put,
}

pub record TrackerWriteContext : Type 0 where
  pub operation_id : String
  pub event_id : Option String
  pub authority : Option DomainAuthorityBinding
  pub now : ℕ

-- What is thrown: by the tracker itself, or by the parts that it calls.
pub data TrackerError : Type 0 where
  attempt_not_found : TrackerError
  tracker_version_conflict : (expected current : ℕ) → TrackerError
  from_lifecycle : LifecycleError → TrackerError
  from_repository : DomainError → TrackerError

abbrev of_lifecycle {ℓ} : {A : Type ℓ} → Result LifecycleError A → Result TrackerError A
of_lifecycle (err e) = err (from_lifecycle e)
of_lifecycle (ok a) = ok a

abbrev of_repository {ℓ} : {A : Type ℓ} → Result DomainError A → Result TrackerError A
of_repository (err e) = err (from_repository e)
of_repository (ok a) = ok a

abbrev pub Stored : Type 0
Stored = VersionedDomainRecord ApplicationAttempt

module _ (s : Services) (d : DomainDescriptor ApplicationAttempt)
    (es : EventStore ApplicationAttempt) where
  -- `current`
  unfoldable pub current_record : es.Store → String → (expected : ℕ) → Result TrackerError Stored
  current_record st id expected = do
    found ← of_repository (get s.platform d es st id false)
    elim found [
      | none ↦ err attempt_not_found
      | some r ↦ guard (r.version == expected) (tracker_version_conflict expected r.version) >> ok r
    ]

  unfoldable pub save :
      es.Store
      → Stored
      → ApplicationAttempt
      → TrackerWriteContext
      → (audit : Option Json) → Result TrackerError (Stored × es.Store)
  save st current attempt context audit = of_repository (
      put s.platform d es st (record {
        value = attempt;
        expected_version = current.version;
        operation_id = context.operation_id;
        event_id = context.event_id;
        now = context.now;
        authority = context.authority;
        audit = audit;
      }))

  -- The operations, on the attempt `id` at the version `expected`.
  module _ (st : es.Store) (id : String) (expected : ℕ) (context : TrackerWriteContext) where
    unfoldable pub approve :
        List TrustedApprover → ApprovalReference → Result TrackerError (Stored × es.Store)
    approve trusted approval = do
      current ← current_record st id expected
      b ← of_lifecycle (approve_application_attempt s current.value approval trusted context.now)
      save st current b context none

    pub mark_submitted : List TrustedApprover → Result TrackerError (Stored × es.Store)
    mark_submitted trusted = do
      current ← current_record st id expected
      b ← of_lifecycle (mark_submission_attempted s current.value trusted context.now)
      save st current b context none

    pub block_attempt : (blocker : String) → Result TrackerError (Stored × es.Store)
    block_attempt blocker = do
      current ← current_record st id expected
      b ← of_lifecycle (block_application_attempt s current.value blocker context.now)
      save st current b context none

    -- `action_id` is `createActionId(now)`.
    pub confirm_attempt :
        (audit : SubmissionProof → SubmissionProofEvaluation → ActionLedgerEntry → Json)
        → (action_id : String) → List TrustedCollector
        → SubmissionProof
        → Result TrackerError (Stored × es.Store)
    confirm_attempt audit action_id collectors proof = do
      current ← current_record st id expected
      c ← of_lifecycle (
          confirm_application_attempt s current.value proof collectors
            default_submission_proof_policy context.now)
      entry ← of_lifecycle (confirmation_ledger_entry s action_id c.0 proof context.now)
      save st current c.0 context (some (audit proof c.1 entry))
