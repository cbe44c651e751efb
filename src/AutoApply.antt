-- ===== src/AutoApply.antt =====
-- auto-apply.ts: the gates between a packet and its automatic submission.
mod Config
pub mod Gates
pub mod Record
pub mod Switch
unfoldable pub use Config.*
use text.Mathlib.Text.{starts_with}
use vocation_os.Prelude.{
  ℕ, zero, suc, Bool, true, false, not, ◌&&◌, ◌||◌, List, [], ◌∷◌, ◌++◌, Option, none, some, String,
  ltb, leb, ◌===◌, if◌then◌else◌, includes, any, all, keep, Result, ok, err, ◌>>=◌, ◌>>◌, guard,
  throw_if,
}
use vocation_os.Runtime.{Platform, SchemaValidation, before}
use vocation_os.Hash.{◌+++◌}
use vocation_os.Text.{is_truthy, is_present, slice_start, before_colon}
use vocation_os.Types.{
  ReversibilityTag, is_r4, Operation, HighStakesFlags, ApprovalReference, ActionLedgerEntry,
  LedgerResult, submitted, confirmed, draft_generated,
}
use vocation_os.Types
use vocation_os.Approval.{
  TrustedApprover, ApprovalScope, ApprovalValidationResult, validate_approval_reference,
}
use vocation_os.Lifecycle.{flag_values, is_assessed}
use vocation_os.Claims.{
  ClaimGraph, ProfileScope, synthetic, ApplicationPacket, PacketValidationResult, FileSystem,
  validate_application_packet,
}
use vocation_os.ActionLedger.{LedgerFile, LedgerError, read_ledger, append_ledger_entry}

-- `input.actionId ?? createActionId(…)`
abbrev chosen_action_id : AutoApplyInput → String
chosen_action_id i = elim i.action_id [ some id ↦ id | none ↦ i.fresh_action_id ]

abbrev blocked : AutoApplyInput → String → List String → AutoApplyDecision
blocked i by reasons = record {
  allowed = false;
  blocked_by = some by;
  reasons = reasons;
  required_approvals = [];
  ledger_action_id = if is_truthy (chosen_action_id i) then some (chosen_action_id i) else none;
  confirmation_evidence_required = true;
  audit_error = none;
}

-- `value === true`
abbrev pub is_raised : Option Bool → Bool
is_raised none = false
is_raised (some b) = b

unfoldable pub has_high_stakes : Option HighStakesFlags → Bool
has_high_stakes none = false
has_high_stakes (some f) = any is_raised (flag_values f)

unfoldable pub has_complete_high_stakes_assessment : Option HighStakesFlags → Bool
has_complete_high_stakes_assessment none = false
has_complete_high_stakes_assessment (some f) = all is_assessed (flag_values f)

abbrev pub override_of : List (String × Override) → String → Option Override
override_of [] id = none
override_of ((k, o) ∷ os) id = if k === id then some o else override_of os id

-- `override?.mode ?? config.mode`
unfoldable pub effective_mode : AutoApplyConfig → String → AutoApplyMode
effective_mode c id = elim (override_of c.per_opportunity id) [
  | none ↦ c.mode
  | some o ↦ elim o.mode [ none ↦ c.mode | some m ↦ m ]
]

unfoldable pub is_excluded : AutoApplyConfig → String → Bool
is_excluded c id = elim (override_of c.per_opportunity id) [
  | none ↦ false
  | some o ↦ is_raised o.excluded
]

unfoldable pub is_in_cooldown : Platform → AutoApplyConfig → ℕ → Bool
is_in_cooldown p c now = elim c.cooldown_until [
  | none ↦ false
  | some until ↦ is_truthy until && before (some now) (p.parse_date until)
]

abbrev pub signal_values : AutomationRiskSignals → List (Option Bool)
signal_values r =
    r.captcha_present ∷ r.anti_bot_detected ∷ r.payment_required ∷ r.identity_check_required
    ∷ r.tos_unclear ∷ r.unsupported_license_claim ∷ r.credential_fabrication_requested ∷ []

unfoldable pub blocking_risk_signal : AutomationRiskSignals → Option String
blocking_risk_signal r =
    if is_raised r.captcha_present
    then some "captcha-present"
    else if is_raised r.anti_bot_detected
    then some "anti-bot-detected"
    else if is_raised r.payment_required
    then some "payment-required"
    else if is_raised r.identity_check_required
    then some "identity-check-required"
    else if is_raised r.tos_unclear
    then some "tos-unclear"
    else if is_raised r.unsupported_license_claim
    then some "unsupported-license-claim"
    else if is_raised r.credential_fabrication_requested
    then some "credential-fabrication-requested"
    else none

unfoldable pub has_complete_risk_signals : AutomationRiskSignals → Bool
has_complete_risk_signals r = all is_assessed (signal_values r)

abbrev counts : LedgerResult → Bool
counts submitted = true
counts confirmed = true
counts _ = false

-- The opportunities of the day, each once: `new Set(…).size`.
unfoldable pub distinct_opportunities : List ActionLedgerEntry → List String → ℕ
distinct_opportunities [] seen = 0
distinct_opportunities (e ∷ es) seen =
    let rest = distinct_opportunities es (e.opportunity_id ∷ seen) in
    if includes seen e.opportunity_id then rest else suc rest

unfoldable pub counts_on : String → ActionLedgerEntry → Bool
counts_on day e = counts e.result && slice_start 10 e.timestamp === day

-- How many opportunities were sent out on the day of `now`.
unfoldable pub usage_on : Platform → ℕ → List ActionLedgerEntry → ℕ
usage_on p now es =
    distinct_opportunities (keep (counts_on (slice_start 10 (p.to_iso_string now))) es) []

abbrev pub is_synthetic : ProfileScope → Bool
is_synthetic synthetic = true
is_synthetic _ = false

-- `none` where neither entries nor a ledger is given; an error where the ledger cannot be read.
unfoldable pub daily_usage : World → AutoApplyInput → Result LedgerError (Option ℕ)
daily_usage w i = elim i.authoritative_ledger_entries [
  | some es ↦ ok (some (usage_on w.platform i.now es))
  | none ↦ elim i.ledger [
    | none ↦ ok none
    | some file ↦ do es ← read_ledger file; ok (some (usage_on w.platform i.now es))
  ]
]

abbrev pub Gate : Type 0 → Type 0
Gate A = Result AutoApplyDecision A

-- The gates are made in the order of the source; the first that fails is the decision.
module _ (w : World) (i : AutoApplyInput) where
  unfoldable pub config_gates : Gate (Unit {0})
  config_gates = do
    guard (w.config_schema i.config).valid
        (blocked i "config-schema-invalid" (w.config_schema i.config).errors)
    guard (w.packet_schema i.packet).valid
        (blocked i "packet-schema-invalid" (w.packet_schema i.packet).errors)
    throw_if i.config.kill_switch.engaged
        (blocked i "kill-switch-engaged" ("kill switch is engaged" ∷ []))
    guard i.config.enabled (blocked i "auto-apply-disabled" ("auto apply is disabled" ∷ []))
    guard (is_auto (effective_mode i.config i.packet.opportunity_id))
        (blocked i "mode-not-auto" ("effective mode is not auto" ∷ []))
    throw_if (is_excluded i.config i.packet.opportunity_id)
        (blocked i "opportunity-excluded" ("opportunity is explicitly excluded" ∷ []))

  unfoldable pub adapter_gates : Gate (Unit {0})
  adapter_gates = do
    guard (i.adapter_id === "local-fixture") (
        blocked i "execution-adapter-not-shipped"
          (("adapter " +++ i.adapter_id +++ " has no shipped execution authority") ∷ []))
    guard (not (i.adapter_id === "local-fixture") || is_synthetic i.claim_graph.profile_scope) (
        blocked i "local-fixture-requires-synthetic-profile"
          ("local fixture execution is limited to synthetic profiles" ∷ []))
    guard (includes i.config.adapter_allowlist i.adapter_id) (
        blocked i "adapter-not-allowlisted"
          (("adapter " +++ i.adapter_id +++ " is not allowlisted") ∷ []))
    throw_if (is_r4 i.reversibility_tag)
        (blocked i "r4-not-auto-submittable" ("R4 action cannot be auto submitted" ∷ []))

  unfoldable pub risk_gates : Gate (Unit {0})
  risk_gates = do
    guard (has_complete_high_stakes_assessment i.high_stakes_flags) (
        blocked i "high-stakes-assessment-incomplete"
          ("all high stakes flags require explicit assessment" ∷ []))
    throw_if (has_high_stakes i.high_stakes_flags) (
        blocked i "high-stakes-requires-manual-review"
          ("high stakes route requires human specialist review" ∷ []))
    elim i.risk_signals [
      | none ↦ err (
          blocked i "risk-signals-missing"
            ("automation risk signals are required for auto mode" ∷ []))
      | some r ↦ do
        guard (has_complete_risk_signals r) (
            blocked i "risk-signals-incomplete"
              ("all automation risk signals require explicit boolean observations" ∷ []))
        elim (blocking_risk_signal r) [
          | none ↦ ok tt
          | some risk ↦ err (blocked i risk ((risk +++ " must not be bypassed") ∷ []))
        ]
    ]

  abbrev exhausted : AutoApplyDecision
  exhausted = blocked i "rate-limit-exhausted" ("daily rate limit is exhausted" ∷ [])

  unfoldable pub rate_gates : Gate (Unit {0})
  rate_gates = do
    throw_if (ltb i.config.max_per_day 1) exhausted
    elim (daily_usage w i) [
      | err e ↦ err (blocked i "rate-limit-ledger-invalid" ("ledger cannot be read" ∷ []))
      | ok none ↦ err (
          blocked i "rate-limit-state-missing"
            ("authoritative ledger path is required for rate limit enforcement" ∷ []))
      | ok (some usage) ↦ do
        throw_if (leb i.config.max_per_day usage) exhausted
        throw_if (is_in_cooldown w.platform i.config i.now)
            (blocked i "cooldown-active" ("cooldown is active" ∷ []))
    ]

  -- The code of a packet that is refused: its first reason up to the colon.
  abbrev packet_code : List String → String
  packet_code [] = "packet-validation-failed"
  packet_code (r ∷ rs) =
      if starts_with r "packet-evidence-not-verified"
      then "packet-evidence-not-verified"
      else before_colon r

  unfoldable pub packet_gates : Gate (Unit {0})
  packet_gates = do
    guard i.packet.tos_compliant
        (blocked i "tos-not-compliant" ("packet terms status is not compliant" ∷ []))
    elim (validate_application_packet w.platform w.files (λ p. (w.packet_schema p).valid)
        w.graph_schema i.packet i.claim_graph i.document_root i.now) [
          | err e ↦ err (blocked i "packet-validation-error" ("packet validation failed" ∷ []))
          | ok v ↦ guard v.valid (blocked i (packet_code v.reasons) v.reasons)
        ]

  abbrev pub decision_scope : ApprovalScope
  decision_scope = record {
    operation = Operation.auto_apply;
    opportunity_id = i.packet.opportunity_id;
    packet_hash = i.packet.packet_hash;
    adapter_id = i.adapter_id;
    reversibility_tag = i.reversibility_tag;
    required_field = "application-packet";
    now = i.now;
    expected_action_intent_hash = none;
  }

  -- `approvalValidation.blockedBy ?? "approval-invalid"`
  abbrev approval_code : Option String → String
  approval_code none = "approval-invalid"
  approval_code (some code) = code

  unfoldable pub approval_gates : Gate (Unit {0})
  approval_gates = elim i.approval_reference [
    | none ↦
        err
          (blocked i "approval-required" ("explicit operator approval reference is required" ∷ []))
    | some a ↦
        let v =
          validate_approval_reference w.platform w.approval_schema a decision_scope
            i.trusted_approvers in
        guard v.valid (blocked i (approval_code v.blocked_by) v.reasons)
  ]

  unfoldable pub gates : Gate (Unit {0})
  gates = do config_gates; adapter_gates; risk_gates; rate_gates; packet_gates; approval_gates

  -- The decision before it is recorded.
  unfoldable pub judge : AutoApplyDecision
  judge = elim gates [
    | err d ↦ d
    | ok _ ↦ record {
      allowed = true;
      blocked_by = none;
      reasons = "all gates passed" ∷ [];
      required_approvals = "operator" ∷ [];
      ledger_action_id = some (chosen_action_id i);
      confirmation_evidence_required = true;
      audit_error = none;
    }
  ]

-- `decision.ledgerActionId ?? createActionId(…)`
abbrev entry_id : AutoApplyInput → AutoApplyDecision → String
entry_id i d = elim d.ledger_action_id [ some id ↦ id | none ↦ i.fresh_action_id ]

-- `decision.blockedBy === code`
abbrev pub is_code : Option String → String → Bool
is_code none code = false
is_code (some by) code = by === code

abbrev pub is_given {ℓ} : {A : Type ℓ} → Option A → Bool
is_given none = false
is_given (some a) = true

unfoldable pub decision_entry : Platform → AutoApplyInput → AutoApplyDecision → ActionLedgerEntry
decision_entry p i d = record {
  action_id = entry_id i d;
  timestamp = p.to_iso_string i.now;
  mode = "/auto-apply-config";
  opportunity_id = i.packet.opportunity_id;
  reversibility_tag = i.reversibility_tag;
  evidence_gate_passed = d.allowed || is_code d.blocked_by "approval-required";
  approval_required = true;
  approval_received = is_given i.approval_reference;
  high_stakes_gate_passed = not (has_high_stakes i.high_stakes_flags);
  result = if d.allowed then draft_generated else Types.blocked;
  blocked_by = d.blocked_by;
  confirmation_evidence_pointer = none;
}

-- The decision when its entry cannot be written.
abbrev pub unrecorded : AutoApplyDecision → LedgerError → AutoApplyDecision
unrecorded d e = record d {
  allowed = false;
  blocked_by = some "ledger-write-failed";
  reasons = d.reasons ++ "ledger-write-failed" ∷ [];
  audit_error = some e;
}

-- `recordDecision`: the decision, and the ledger file after it.
unfoldable pub record_decision :
    World → AutoApplyInput → AutoApplyDecision → AutoApplyDecision × Option LedgerFile
record_decision w i d = elim i.ledger [
  | none ↦ (d, none)
  | some file ↦ elim (append_ledger_entry w.entry_schema file (decision_entry w.platform i d)) [
    | ok after ↦ (d, some after)
    | err e ↦ (unrecorded d e, some file)
  ]
]

-- `decideAutoApply`
unfoldable pub decide_auto_apply : World → AutoApplyInput → AutoApplyDecision × Option LedgerFile
decide_auto_apply w i = record_decision w i (judge w i)
