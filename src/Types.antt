-- ===== src/Types.antt =====
-- types.ts: the data that the gates, the approvals and the ledger share; reversibility.ts.
use vocation_os.Prelude.{Bool, true, false, not, List, Option, String}

pub data ReversibilityTag : Type 0 where
  r0 r1 r2 r3 r4 : ReversibilityTag

pub data Operation : Type 0 where
  auto_apply forced_score : Operation

-- `left === right`
abbrev pub same_operation : Operation → Operation → Bool
same_operation auto_apply auto_apply = true
same_operation forced_score forced_score = true
same_operation _ _ = false

abbrev pub tag_text : ReversibilityTag → String
tag_text r0 = "R0"
tag_text r1 = "R1"
tag_text r2 = "R2"
tag_text r3 = "R3"
tag_text r4 = "R4"

abbrev pub operation_text : Operation → String
operation_text auto_apply = "auto-apply"
operation_text forced_score = "forced-score"

abbrev pub is_r4 : ReversibilityTag → Bool
is_r4 r4 = true
is_r4 _ = false

is_auto_submittable : ReversibilityTag → Bool
is_auto_submittable tag = not (is_r4 tag)

requires_human_approval : ReversibilityTag → Bool
requires_human_approval r2 = true
requires_human_approval r3 = true
requires_human_approval r4 = true
requires_human_approval _ = false

-- A flag is `none` where its key is missing: the type is a partial record.
pub record HighStakesFlags : Type 0 where
  pub immigration_sensitive : Option Bool
  pub licensing_sensitive : Option Bool
  pub financial_liability_sensitive : Option Bool
  pub clinical_or_mental_health_sensitive : Option Bool
  pub research_integrity_sensitive : Option Bool
  pub conflict_of_interest_sensitive : Option Bool
  pub public_reputation_sensitive : Option Bool
  pub family_relocation_sensitive : Option Bool

pub record ApprovalReference : Type 0 where
  pub approval_id : String
  pub operation : Operation
  pub approved_by : String
  pub key_id : String
  pub approved_at : String
  pub expires_at : String
  pub approval_text_hash : String
  pub opportunity_id : String
  pub packet_hash : String
  pub adapter_id : String
  pub action_intent_hash : String
  pub allowed_fields : List String
  pub signature : String

pub data LedgerResult : Type 0 where
  blocked decision_allowed draft_generated submitted confirmed : LedgerResult

pub record ActionLedgerEntry : Type 0 where
  pub action_id : String
  pub timestamp : String
  pub mode : String
  pub opportunity_id : String
  pub reversibility_tag : ReversibilityTag
  pub evidence_gate_passed : Bool
  pub approval_required : Bool
  pub approval_received : Bool
  pub high_stakes_gate_passed : Bool
  pub result : LedgerResult
  pub blocked_by : Option String
  pub confirmation_evidence_pointer : Option String
