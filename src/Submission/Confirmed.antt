-- ===== src/Submission/Confirmed.antt =====
-- What a proof that is found confirmed has been checked for (submission-proof.ts).
use mathlib.Core.List.{Memᴰ}
use vocation_os.Prelude.{
  ℕ, ◌+◌, ◌≤◌, ◌≡◌, ◌≢◌, ◌↔◌, ◌⊎◌, inl, inr, true, false, List, [], ◌∷◌, Option, none, some, String,
  arith, eq_iff, find, any, includes→mem, find_holds, find-mem, ap, ◌∙◌, Option-cases, Bool-cases,
  ok, All,
}
use vocation_os.Runtime.{Platform}
use vocation_os.Text.{is_present}
use vocation_os.Submission.{
  ProofKind, ats_dashboard, sent_items, same_kind, SubmissionProof, TrustedCollector,
  SubmissionProofPolicy, SubmissionProofExpectation, SubmissionProofEvaluation, confirmed, skew,
  is_collector, is_bound, is_negative, negative_indicators, positive_indicator_exists,
  sent_items_reasons, compute_submission_receipt_hash, evaluate_signals, evaluate_receipt,
  evaluate_times, evaluate_scope, evaluate_submission_proof,
}

same_kind_iff : (k j : ProofKind) → (same_kind k j ≡ true) ↔ (k ≡ j)
same_kind_iff k j = ground arith

any_kind→mem : (k : ProofKind) (ks : List ProofKind) → any (same_kind k) ks ≡ true → Memᴰ k ks
any_kind→mem k [] h = cc
any_kind→mem k (j ∷ js) h = elim (Bool-cases (same_kind k j)) [
  | inl e ↦ Memᴰ.head ((same_kind_iff k j).0 e)
  | inr n ↦ Memᴰ.tail (any_kind→mem k js (ground arith))
]

-- The proof names the attempt: its id, intent, opportunity, packet and adapter.
pub record IsProofOf (proof : SubmissionProof) (e : SubmissionProofExpectation) : Type 0 where
  pub attempt : proof.attempt_id ≡ e.attempt_id
  pub intent : proof.action_intent_hash ≡ e.action_intent_hash
  pub opportunity : proof.opportunity_id ≡ e.opportunity_id
  pub packet : proof.packet_hash ≡ e.packet_hash
  pub adapter : proof.adapter_id ≡ e.adapter_id

is_bound_iff :
    (proof : SubmissionProof) (e : SubmissionProofExpectation)
    → (is_bound proof e ≡ true) ↔ IsProofOf proof e
unfolding is_bound
is_bound_iff proof e = (
  λ h. record {
    attempt = ground (arith, eq_iff proof.attempt_id e.attempt_id);
    intent = ground (arith, eq_iff proof.action_intent_hash e.action_intent_hash);
    opportunity = ground (arith, eq_iff proof.opportunity_id e.opportunity_id);
    packet = ground (arith, eq_iff proof.packet_hash e.packet_hash);
    adapter = ground (arith, eq_iff proof.adapter_id e.adapter_id);
  },
  λ b. ground (
    arith,
    eq_iff proof.attempt_id e.attempt_id,
    eq_iff proof.action_intent_hash e.action_intent_hash,
    eq_iff proof.opportunity_id e.opportunity_id,
    eq_iff proof.packet_hash e.packet_hash,
    eq_iff proof.adapter_id e.adapter_id,
  ),
)

-- The collector may report this: it is registered, for this adapter, source and kind.
pub record IsEntitled (proof : SubmissionProof) (collectors : List TrustedCollector)
    (c : TrustedCollector) : Type 0 where
  pub registered : Memᴰ c collectors
  pub identity : c.collector_id ≡ proof.collector_id
  pub key : c.key_id ≡ proof.key_id
  pub adapter : Memᴰ proof.adapter_id c.allowed_adapters
  pub source : Memᴰ proof.source_domain c.allowed_source_domains
  pub kind : Memᴰ proof.kind c.allowed_kinds

-- What the observation says of completion, for its kind.
pub record IsCompletion (p : Platform) (proof : SubmissionProof) (policy : SubmissionProofPolicy)
    (submitted_at captured_at : Option ℕ) : Type 0 where
  pub no_negative : All (λ i. is_negative i ≡ false) proof.indicators
  pub mailed :
      proof.kind ≡ sent_items → sent_items_reasons p proof policy submitted_at captured_at ≡ []
  pub referenced : proof.kind ≡ ats_dashboard → is_present proof.reference_id ≡ true
  pub positive : proof.kind ≢ sent_items → positive_indicator_exists proof.indicators ≡ true

no_negatives :
    (is : List String) → negative_indicators is ≡ [] → All (λ i. is_negative i ≡ false) is
unfolding negative_indicators
no_negatives [] h = tt
no_negatives (i ∷ is) h = (ground arith, no_negatives is (ground arith))

module _ (p : Platform) (proof : SubmissionProof) (policy : SubmissionProofPolicy)
    (submitted_at captured_at : Option ℕ) where
  signals-IsCompletion :
      (evaluate_signals p proof policy submitted_at captured_at).status ≡ confirmed
      → IsCompletion p proof policy submitted_at captured_at
  unfolding evaluate_signals
  signals-IsCompletion h = record {
    no_negative = no_negatives proof.indicators (ground arith);
    mailed = λ k. ground arith;
    referenced = λ k. ground arith;
    positive = λ k. ground arith;
  }

-- The times of the attempt are readable, and the time of capture lies between the submission and the
-- evaluation, give or take the clock skew, or cannot be read, which the code does not refuse.
pub record IsTimely (p : Platform) (proof : SubmissionProof) (e : SubmissionProofExpectation)
    (evaluated_at : Option ℕ) : Type 0 where
  pub submitted : ℕ
  pub evaluated : ℕ
  pub submitted_read : p.parse_date e.submitted_at ≡ some submitted
  pub evaluated_read : evaluated_at ≡ some evaluated
  pub captured :
      (p.parse_date proof.captured_at ≡ none)
      ⊎ ((c : ℕ) × (p.parse_date proof.captured_at ≡ some c)
          × (submitted ≤ c + skew)
          × (c ≤ evaluated + skew))

-- What stands behind a confirmed proof.
pub record IsConfirmed (p : Platform) (proof : SubmissionProof) (collectors : List TrustedCollector)
    (e : SubmissionProofExpectation) (policy : SubmissionProofPolicy) (evaluated_at : Option ℕ)
    : Type 0 where
  pub collector : TrustedCollector
  pub entitled : IsEntitled proof collectors collector
  pub proof_of : IsProofOf proof e
  pub timely : IsTimely p proof e evaluated_at
  pub untampered : compute_submission_receipt_hash p proof.observation ≡ proof.receipt_hash
  pub signed : p.verify proof.receipt_hash collector.public_key_pem proof.signature ≡ some true
  pub completion :
      IsCompletion p proof policy (p.parse_date e.submitted_at) (p.parse_date proof.captured_at)

module _ (p : Platform) (proof : SubmissionProof) (c : TrustedCollector)
    (policy : SubmissionProofPolicy) (v : SubmissionProofEvaluation)
    (good : v.status ≡ confirmed) where
  receipt_checks :
      (submitted_at captured_at : Option ℕ)
      → evaluate_receipt p proof c policy submitted_at captured_at ≡ ok v
      → (compute_submission_receipt_hash p proof.observation ≡ proof.receipt_hash)
        × (p.verify proof.receipt_hash c.public_key_pem proof.signature ≡ some true)
        × (evaluate_signals p proof policy submitted_at captured_at ≡ v)
  unfolding evaluate_receipt
  receipt_checks submitted_at captured_at h = (
    ground (arith, eq_iff (compute_submission_receipt_hash p proof.observation) proof.receipt_hash),
    ground arith,
    ground arith,
  )

  module _ (e : SubmissionProofExpectation) (evaluated_at : Option ℕ) where
    times_checks :
        evaluate_times p proof c e policy evaluated_at ≡ ok v
        → IsTimely p proof e evaluated_at
          × (evaluate_receipt p proof c policy
                (p.parse_date e.submitted_at)
                (p.parse_date proof.captured_at)
              ≡ ok v)
    unfolding evaluate_times
    times_checks h = elim (Option-cases (p.parse_date e.submitted_at)) [
      | inl unread ↦ absurd (ground arith)
      | inr (s, read) ↦ elim (Option-cases evaluated_at) [
        | inl unread ↦ absurd (ground arith)
        | inr (w, known) ↦ (
          record {
            submitted = s;
            evaluated = w;
            submitted_read = read;
            evaluated_read = known;
            captured = elim (Option-cases (p.parse_date proof.captured_at)) [
              | inl unread ↦ inl unread
              | inr (c, r) ↦ inr (c, r, ground arith, ground arith)
            ];
          },
          ground arith,
        )
      ]
    ]

    scope_checks :
        evaluate_scope p proof c e policy evaluated_at ≡ ok v
        → Memᴰ proof.adapter_id c.allowed_adapters
          × Memᴰ proof.source_domain c.allowed_source_domains
          × Memᴰ proof.kind c.allowed_kinds
          × IsProofOf proof e
          × (evaluate_times p proof c e policy evaluated_at ≡ ok v)
    unfolding evaluate_scope
    scope_checks h = (
      includes→mem c.allowed_adapters proof.adapter_id (ground arith),
      includes→mem c.allowed_source_domains proof.source_domain (ground arith),
      any_kind→mem proof.kind c.allowed_kinds (ground arith),
      (is_bound_iff proof e).0 (ground arith),
      ground arith,
    )

-- At a given time of evaluation, a proof is found confirmed only if it fits its schema, a registered
-- collector that may report this adapter, source and kind observed this attempt and signed the
-- receipt of exactly this observation, the times of submission and evaluation are readable and the
-- time of capture lies between them or is not readable, no indicator is negative, and the
-- observation says that the application is complete in the way that its kind requires.
pub evaluate_submission_proof-IsConfirmed :
    (p : Platform) (schema : SubmissionProof → Option String) (clock : String)
    (proof : SubmissionProof) (collectors : List TrustedCollector) (e : SubmissionProofExpectation)
    (policy : SubmissionProofPolicy) (at : String) (v : SubmissionProofEvaluation)
    → e.evaluated_at ≡ some at
    → evaluate_submission_proof p schema clock proof collectors e policy ≡ ok v
    → v.status ≡ confirmed
    → (schema proof ≡ none) × IsConfirmed p proof collectors e policy (p.parse_date at)
unfolding evaluate_submission_proof
evaluate_submission_proof-IsConfirmed p schema clock proof collectors e policy at v known h good =
    elim (Option-cases (find (is_collector proof) collectors)) [
      | inl nobody ↦ absurd (ground arith)
      | inr (c, found) ↦
          let (a, s, k, b, times) =
            scope_checks p proof c policy v good e (p.parse_date at) (ground arith) in
          let (timely, receipt) = times_checks p proof c policy v good e (p.parse_date at) times in
          let (hash, signed, signals) = receipt_checks p proof c policy v good _ _ receipt in
          let named = find_holds (is_collector proof) collectors c found in
          (
            ground arith,
            record {
              collector = c;
              entitled = record {
                registered = find-mem (is_collector proof) collectors c found;
                identity = ground (arith, eq_iff c.collector_id proof.collector_id);
                key = ground (arith, eq_iff c.key_id proof.key_id);
                adapter = a;
                source = s;
                kind = k;
              };
              proof_of = b;
              timely = timely;
              untampered = hash;
              signed = signed;
              completion =
                  signals-IsCompletion p proof policy _ _ (ap (λ x. x.status) signals ∙ good);
            },
          )
    ]
