-- ===== src/Submission/Proof.antt =====
-- submission-proof.ts: observations, proofs of them, collectors, and the patterns of indicators.
use vocation_os.Prelude.{ℕ, Bool, true, false, List, [], ◌∷◌, Option, String, any, keep}
use vocation_os.Text.{matches}

pub data ProofKind : Type 0 where
  confirmation_page ats_dashboard sent_items receipt_email : ProofKind

-- `left === right`
abbrev pub same_kind : ProofKind → ProofKind → Bool
same_kind confirmation_page confirmation_page = true
same_kind ats_dashboard ats_dashboard = true
same_kind sent_items sent_items = true
same_kind receipt_email receipt_email = true
same_kind _ _ = false

abbrev pub kind_text : ProofKind → String
kind_text confirmation_page = "confirmation-page"
kind_text ats_dashboard = "ats-dashboard"
kind_text sent_items = "sent-items"
kind_text receipt_email = "receipt-email"

pub record SubmissionObservation : Type 0 where
  pub collector_id : String
  pub collector_version : String
  pub key_id : String
  pub attempt_id : String
  pub action_intent_hash : String
  pub opportunity_id : String
  pub packet_hash : String
  pub adapter_id : String
  pub kind : ProofKind
  pub captured_at : String
  pub source_domain : String
  pub source_pointer : String
  pub indicators : List String
  pub recipient_domain : Option String
  pub attachment_count : Option ℕ
  pub reference_id : Option String
  pub sent_at : Option String
  pub payload_hash : String

pub record SubmissionProof : Type 0 where
  pub observation : SubmissionObservation
  pub open observation use *
  pub proof_id : String
  pub receipt_hash : String
  pub signature : String

pub record TrustedCollector : Type 0 where
  pub collector_id : String
  pub key_id : String
  pub public_key_pem : String
  pub allowed_adapters : List String
  pub allowed_source_domains : List String
  pub allowed_kinds : List ProofKind

pub record SubmissionProofPolicy : Type 0 where
  pub email_attachment_required : Bool

pub record SubmissionProofExpectation : Type 0 where
  pub attempt_id : String
  pub action_intent_hash : String
  pub opportunity_id : String
  pub packet_hash : String
  pub adapter_id : String
  pub submitted_at : String
  pub evaluated_at : Option String

pub data ProofStatus : Type 0 where
  confirmed insufficient rejected : ProofStatus

abbrev pub is_confirmed : ProofStatus → Bool
is_confirmed confirmed = true
is_confirmed _ = false

pub record SubmissionProofEvaluation : Type 0 where
  pub proof_id : String
  pub opportunity_id : String
  pub status : ProofStatus
  pub reasons : List String
  pub ledger_eligible : Bool
  pub collector_id : String

-- The signature check throws on a key that cannot be read.
pub data ProofError : Type 0 where
  key_unreadable : ProofError

pub default_submission_proof_policy : SubmissionProofPolicy
default_submission_proof_policy = record { email_attachment_required = true }

-- The alternatives of POSITIVE_PATTERNS, each optional group written out.
positive_patterns : List String
positive_patterns =
    "application received" ∷ "application has been received" ∷ "thank you for applying"
    ∷ "application submitted" ∷ "application was submitted" ∷ "successfully submitted"
    ∷ "we received your application" ∷ "we have received your application" ∷ "application complete"
    ∷ []

negative_patterns : List String
negative_patterns =
    "security code" ∷ "verification code" ∷ "resubmit" ∷ "application incomplete"
    ∷ "application is incomplete" ∷ "submission failed" ∷ "application not submitted"
    ∷ "application was not submitted" ∷ "application not received" ∷ "application was not received"
    ∷ "finish your application" ∷ "complete your application" ∷ "pending submission" ∷ []

unfoldable pub positive_indicator_exists : List String → Bool
unfolding positive_patterns
positive_indicator_exists = any (λ indicator. any (matches indicator) positive_patterns)

unfoldable pub is_negative : String → Bool
unfolding negative_patterns
is_negative indicator = any (matches indicator) negative_patterns

unfoldable pub negative_indicators : List String → List String
negative_indicators = keep is_negative
