-- ===== src/Submission.antt =====
-- submission-proof.ts: whether a collector's signed observation confirms that an application was
-- sent.
mod Proof
pub mod Confirmed
unfoldable pub use Proof.*
use vocation_os.Prelude.{
  ℕ, ◌+◌, Bool, true, false, not, ◌&&◌, ◌||◌, List, [], ◌∷◌, ◌++◌, Option, none, some, String, ltb,
  ◌===◌, if◌then◌else◌, find, includes, any, keep, Result, ok, err,
}
use vocation_os.Runtime.{Platform, before, plus, is_finite}
use vocation_os.Hash.{
  Json, null, num, str, arr, obj, Items, nil, cons, Fields, end, field, stringify, sha256,
}
use vocation_os.Text.{is_truthy, is_present, matches, decimal}
use vocation_os.Approval.{items}

abbrev or_null : Option String → Json
or_null none = null
or_null (some s) = str s

abbrev count_or_null : Option ℕ → Json
count_or_null none = null
count_or_null (some n) = num (decimal n)

observation_tail : SubmissionObservation → Fields
observation_tail o = field "sourceDomain" (str o.source_domain) (
    field "sourcePointer" (str o.source_pointer) (
      field "indicators" (arr (items o.indicators)) (
        field "recipientDomain" (or_null o.recipient_domain) (
          field "attachmentCount" (count_or_null o.attachment_count) (
            field "referenceId" (or_null o.reference_id) (
              field "sentAt" (or_null o.sent_at)
                (field "payloadHash" (str o.payload_hash) end)))))))

pub observation_json : SubmissionObservation → Json
unfolding observation_tail
observation_json o = obj (
    field "collectorId" (str o.collector_id) (
      field "collectorVersion" (str o.collector_version) (
        field "keyId" (str o.key_id) (
          field "attemptId" (str o.attempt_id) (
            field "actionIntentHash" (str o.action_intent_hash) (
              field "opportunityId" (str o.opportunity_id) (
                field "packetHash" (str o.packet_hash) (
                  field "adapterId" (str o.adapter_id) (
                    field "kind" (str (kind_text o.kind))
                      (field "capturedAt" (str o.captured_at) (observation_tail o)))))))))))

abbrev evaluation : SubmissionProof → ProofStatus → List String → SubmissionProofEvaluation
evaluation proof status reasons = record {
  proof_id = proof.proof_id;
  opportunity_id = proof.opportunity_id;
  status = status;
  reasons = reasons;
  ledger_eligible = is_confirmed status;
  collector_id = proof.collector_id;
}

abbrev pub Verdict : Type 0
Verdict = Result ProofError SubmissionProofEvaluation

abbrev reject : SubmissionProof → String → Verdict
reject proof reason = ok (evaluation proof rejected (reason ∷ []))

abbrev pub skew : ℕ
skew = 300_000

-- `if (b) reasons.push(reason)`
abbrev reason_if : Bool → String → List String
reason_if b reason = if b then reason ∷ [] else []

-- `(proof.attachmentCount ?? 0) < 1`
abbrev lacks_attachment : Option ℕ → Bool
lacks_attachment none = true
lacks_attachment (some n) = ltb n 1

-- `reasons.length === 0 ? confirmed : insufficient`
abbrev confirmed_unless : SubmissionProof → List String → SubmissionProofEvaluation
confirmed_unless proof [] =
    evaluation proof confirmed ("trusted Sent Items collector satisfies the email policy" ∷ [])
confirmed_unless proof reasons = evaluation proof insufficient reasons

-- `candidate.collectorId === … && candidate.keyId === …`
abbrev pub is_collector : SubmissionProof → TrustedCollector → Bool
is_collector proof c = c.collector_id === proof.collector_id && c.key_id === proof.key_id

unfoldable pub is_bound : SubmissionProof → SubmissionProofExpectation → Bool
is_bound proof e =
    proof.attempt_id === e.attempt_id
    && proof.action_intent_hash === e.action_intent_hash
    && proof.opportunity_id === e.opportunity_id
    && proof.packet_hash === e.packet_hash
    && proof.adapter_id === e.adapter_id

module _ (p : Platform) where
  -- `computeSubmissionReceiptHash`
  unfoldable pub compute_submission_receipt_hash : SubmissionObservation → String
  unfolding observation_json
  compute_submission_receipt_hash o = sha256 p (stringify p (observation_json o))

  -- The time stamp of a mail in the sent items, where it has one.
  sent_outside : Option String → Option ℕ → Option ℕ → Bool
  sent_outside none submitted_at captured_at = false
  sent_outside (some text) submitted_at captured_at =
      let sent_at = p.parse_date text in
      is_truthy text
      && (not (is_finite sent_at)
          || before (plus sent_at skew) submitted_at
          || before (plus captured_at skew) sent_at)

  pub sent_items_reasons :
      SubmissionProof → SubmissionProofPolicy → Option ℕ → Option ℕ → List String
  unfolding sent_outside
  sent_items_reasons proof policy submitted_at captured_at =
      reason_if (not (is_present proof.recipient_domain)) "recipient domain is missing"
      ++ (reason_if (not (is_present proof.sent_at)) "Sent Items timestamp is missing"
          ++ (reason_if (sent_outside proof.sent_at submitted_at captured_at)
                "Sent Items timestamp is outside the application attempt window"
              ++ reason_if
                  (policy.email_attachment_required && lacks_attachment proof.attachment_count)
                  "required application attachment is missing"))

  -- What the observation itself says.
  unfoldable pub evaluate_signals :
      SubmissionProof → SubmissionProofPolicy → Option ℕ → Option ℕ → SubmissionProofEvaluation
  evaluate_signals proof policy submitted_at captured_at =
      elim (negative_indicators proof.indicators) [
        | n ∷ ns ↦ evaluation proof rejected ("proof contains a non completion signal" ∷ n ∷ ns)
        | [] ↦
            if same_kind proof.kind sent_items
            then confirmed_unless proof (sent_items_reasons proof policy submitted_at captured_at)
            else if same_kind proof.kind ats_dashboard && not (is_present proof.reference_id)
            then evaluation proof insufficient ("ATS application reference is missing" ∷ [])
            else if positive_indicator_exists proof.indicators
            then evaluation proof confirmed ("trusted collector confirms completion" ∷ [])
            else evaluation proof insufficient ("proof has no positive completion indicator" ∷ [])
      ]

  -- The receipt hash and the collector's signature over it.
  unfoldable pub evaluate_receipt :
      SubmissionProof → TrustedCollector → SubmissionProofPolicy → Option ℕ → Option ℕ → Verdict
  evaluate_receipt proof collector policy submitted_at captured_at =
      if not (compute_submission_receipt_hash proof.observation === proof.receipt_hash)
      then reject proof "receipt hash does not match the collector observation"
      else elim (p.verify proof.receipt_hash collector.public_key_pem proof.signature) [
        | none ↦ err key_unreadable
        | some false ↦ reject proof "collector signature is invalid"
        | some true ↦ ok (evaluate_signals proof policy submitted_at captured_at)
      ]

  -- The times of the proof, the submission and the evaluation.
  unfoldable pub evaluate_times :
      SubmissionProof
      → TrustedCollector
      → SubmissionProofExpectation
      → SubmissionProofPolicy
      → Option ℕ
      → Verdict
  evaluate_times proof collector e policy evaluated_at =
      let captured_at = p.parse_date proof.captured_at in
      let submitted_at = p.parse_date e.submitted_at in
      if not (is_finite submitted_at) || not (is_finite evaluated_at)
      then reject proof "proof evaluation timestamps are invalid"
      else if before (plus captured_at skew) submitted_at
          || before (plus evaluated_at skew) captured_at
      then reject proof "proof capture time is outside the application attempt window"
      else evaluate_receipt proof collector policy submitted_at captured_at

  -- What the collector may report, and for which attempt the report is.
  unfoldable pub evaluate_scope :
      SubmissionProof
      → TrustedCollector
      → SubmissionProofExpectation
      → SubmissionProofPolicy
      → Option ℕ
      → Verdict
  evaluate_scope proof collector e policy evaluated_at =
      if not (includes collector.allowed_adapters proof.adapter_id)
      then reject proof "collector is not allowed for this adapter"
      else if not (includes collector.allowed_source_domains proof.source_domain)
      then reject proof "source domain is not trusted for this collector"
      else if not (any (same_kind proof.kind) collector.allowed_kinds)
      then reject proof "collector is not allowed for this proof kind"
      else if not (is_bound proof e)
      then reject proof "proof binding does not match the application attempt"
      else evaluate_times proof collector e policy evaluated_at

  -- `evaluateSubmissionProof`. `schema` is the message of a failing `assertSchema`, and `clock` the
  -- text of `new Date().toISOString()`.
  unfoldable pub evaluate_submission_proof :
      (schema : SubmissionProof → Option String) (clock : String)
      → SubmissionProof
      → List TrustedCollector
      → SubmissionProofExpectation
      → SubmissionProofPolicy
      → Verdict
  evaluate_submission_proof schema clock proof collectors e policy =
      let evaluated_at : String = elim e.evaluated_at [ none ↦ clock | some text ↦ text ] in
      elim (schema proof) [
        | some message ↦ reject proof message
        | none ↦ elim (find (is_collector proof) collectors) [
          | none ↦ reject proof "collector is not trusted"
          | some collector ↦ evaluate_scope proof collector e policy (p.parse_date evaluated_at)
        ]
      ]
