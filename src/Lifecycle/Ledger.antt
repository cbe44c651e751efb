-- ===== src/Lifecycle/Ledger.antt =====
-- confirmationLedgerEntry (application-lifecycle.ts): when an attempt is entered as confirmed.
use vocation_os.Prelude.{
  ℕ, Option, ◌↔◌, ◌≡◌, ◌≢◌, refl, true, String, some, none, arith, ok, eq_iff, inr,
}
use vocation_os.Types.{ActionLedgerEntry}
use vocation_os.Submission.{
  SubmissionProof, TrustedCollector, SubmissionProofPolicy, SubmissionProofEvaluation,
}
use vocation_os.Lifecycle.{
  ApplicationAttempt, Services, confirmed, confirmation_entry, confirmation_ledger_entry,
  is_some_text, confirm_application_attempt,
}
use vocation_os.Lifecycle.Steps.{IsConsistent, Step-IsConsistent, confirming, confirm_lem}
use mathlib.Core.List.{List}

-- A confirmation that succeeds on a consistent attempt can always be entered in the ledger with the
-- proof that confirmed it, if the entry fits its schema.
pub confirm-confirmation_ledger_entry :
    (s : Services) (action_id : String) (a b : ApplicationAttempt) (proof : SubmissionProof)
    (collectors : List TrustedCollector) (policy : SubmissionProofPolicy) (now : ℕ)
    (v : SubmissionProofEvaluation)
    → IsConsistent a
    → confirm_application_attempt s a proof collectors policy now ≡ ok (b, v)
    → s.entry_schema (confirmation_entry s action_id b proof now) ≡ true
    → confirmation_ledger_entry s action_id b proof now
      ≡ ok (confirmation_entry s action_id b proof now)
unfolding confirmation_ledger_entry
confirm-confirmation_ledger_entry s action_id a b proof collectors policy now v c h fits =
    let (_, _, _, e) = confirm_lem s a b proof collectors policy now v h in
    let fit = Step-IsConsistent s (confirming proof collectors policy now v h) c in
    ground (
      arith,
      eq_iff proof.proof_id proof.proof_id,
      eq_iff proof.receipt_hash proof.receipt_hash,
      eq_iff proof.collector_id proof.collector_id,
      fit.approval (inr (inr (ground arith))),
      fit.gated (inr (ground arith)),
    )

is_some_text_iff : (o : Option String) (t : String) → (is_some_text o t ≡ true) ↔ (o ≡ some t)
is_some_text_iff none t = ground arith
is_some_text_iff (some u) t = ground (arith, eq_iff u t)

entry_opportunity :
    (s : Services) (action_id : String) (a : ApplicationAttempt) (proof : SubmissionProof) (now : ℕ)
    → (confirmation_entry s action_id a proof now).opportunity_id ≡ a.opportunity_id
unfolding confirmation_entry
entry_opportunity s action_id a proof now = refl

-- An entry is made only for a confirmed attempt, with the proof that the attempt names, its gate
-- passed and its approval recorded, and it speaks of the attempt's opportunity.
pub confirmation_ledger_entry-bound :
    (s : Services) (action_id : String) (a : ApplicationAttempt) (proof : SubmissionProof) (now : ℕ)
    (entry : ActionLedgerEntry)
    → confirmation_ledger_entry s action_id a proof now ≡ ok entry
    → (a.status ≡ confirmed)
      × (a.proof_id ≡ some proof.proof_id)
      × (a.proof_receipt_hash ≡ some proof.receipt_hash)
      × (a.collector_id ≡ some proof.collector_id)
      × (a.high_stakes_gate_passed ≡ true)
      × (a.approval_id ≢ none)
      × (entry.opportunity_id ≡ a.opportunity_id)
unfolding confirmation_ledger_entry
confirmation_ledger_entry-bound s action_id a proof now entry h = (
  ground arith,
  (is_some_text_iff a.proof_id proof.proof_id).0 (ground arith),
  (is_some_text_iff a.proof_receipt_hash proof.receipt_hash).0 (ground arith),
  (is_some_text_iff a.collector_id proof.collector_id).0 (ground arith),
  ground arith,
  λ e. ground arith,
  ground (arith, entry_opportunity s action_id a proof now),
)
