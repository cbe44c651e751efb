-- ===== src/Examples/Gates.antt =====
-- The theorems on the automatic application, at a decision that is allowed.
use vocation_os.Prelude.{
  ◌≡◌, ◌⊎◌, refl, true, false, [], ◌∷◌, none, some, String, ok, ◌===◌, if◌then◌else◌,
}
use vocation_os.Hash.{◌+++◌, stringify, stable_stringify, sha256}
use vocation_os.Text.{normalize_space, decimal, slice_start}
use vocation_os.Types.{ApprovalReference, ActionLedgerEntry, r1}
use vocation_os.Types
use vocation_os.Approval.{
  compute_action_intent_hash, validate_approval_reference, validate_window, validate_binding,
  signature_valid, expected_intent_hash, unsigned_approval, binding_json,
}
use vocation_os.Claims.{
  Claim, ClaimGraph, ApplicationPacket, FileSystem, verified, synthetic, compute_packet_hash,
  compute_claim_text_hash, validate_application_packet, validate_claim_graph, scan_claims,
  claim_reasons, validate_recency, scan_packet_claims, packet_claim_reasons, claim_index,
  grounding_reasons, packet_reasons, scan_documents, validate_document, is_within_root,
  resolve_document, validate_real_document,
}
use vocation_os.Claims.Grounded.{IsAcceptable, validate_application_packet-IsAcceptable}
use vocation_os.ActionLedger.{LedgerFile, append_ledger_entry, read_ledger}
use vocation_os.ActionLedger.Unique.{IsUnique, append_ledger_entry-IsUnique}
use vocation_os.AutoApply.{
  AutoApplyConfig, AutoApplyInput, World, auto, decide_auto_apply, engage_kill_switch,
  decision_entry, judge, record_decision, gates, config_gates, adapter_gates, risk_gates,
  rate_gates, packet_gates, approval_gates, effective_mode, is_excluded, is_in_cooldown,
  has_high_stakes, has_complete_high_stakes_assessment, blocking_risk_signal,
  has_complete_risk_signals, daily_usage, usage_on, distinct_opportunities, counts_on,
}
use vocation_os.AutoApply.Gates.{
  FitsSchemas, IsArmed, IsShipped, IsClear, HasRoom, IsApproved, decide_auto_apply-allowed,
}
use vocation_os.AutoApply.Record.{IsRecorded, IsWithdrawn, decide_auto_apply-IsRecorded}
use vocation_os.AutoApply.Switch.{enable, calls, engaged_stays_stopped}
use vocation_os.Examples.Base.{platform, accept_any, approver, signed_approval, no_flags}

-- One document, at /docs/cv.
abbrev files : FileSystem
files = record {
  resolve = λ root path. if root === "" then path else root +++ "/" +++ path;
  relative = λ root path. if root === path then "" else "cv";
  is_absolute = λ path. path === "/docs";
  exists = λ path. true;
  realpath = λ path. some path;
  is_file = λ path. some true;
  file_digest = λ path. some "cv-bytes";
}

abbrev claim : Claim
claim = record {
  claim_id = "C-1";
  text = "led a team";
  canonical_text_hash = "sha256:led a team";
  evidence_status = verified;
  source_pointer = "cv:1";
  verified_date = some "2026-01-01";
  recency_required = false;
  recency_policy_id = none;
  publicly_assertable = true;
  allowed_in_auto_apply = true;
}

abbrev graph : ClaimGraph
graph = record {
  profile_scope = synthetic;
  claims = claim ∷ [];
  verified_claims = 1;
  unverified_claims = 0;
  private_claims = 0;
}

abbrev draft : ApplicationPacket
draft = record {
  opportunity_id = "OPP-1";
  claims =
      record {
        claim_id = "C-1";
        text = "led  a team ";
        source_claim_text_hash = "sha256:led a team";
        evidence_status = verified;
        source_pointer = "cv:1";
        publicly_assertable = true;
      }
      ∷ [];
  documents = record { kind = "cv"; path = "cv"; content_hash = "sha256:cv-bytes" } ∷ [];
  tos_compliant = true;
  generated_at = "T500";
  packet_hash = "";
  approval_required = true;
}

abbrev packet : ApplicationPacket
packet = record draft { packet_hash = compute_packet_hash platform draft }

packet_valid :
    validate_application_packet platform files
      (λ p. true)
      (λ g. true)
      packet
      graph
      (some "/docs")
      1000
    ≡ ok (record { valid = true; reasons = [] })
unfolding validate_application_packet validate_claim_graph scan_claims claim_reasons
    compute_claim_text_hash sha256 normalize_space validate_recency scan_packet_claims
    packet_claim_reasons claim_index grounding_reasons packet_reasons compute_packet_hash stringify
    stable_stringify scan_documents validate_document is_within_root resolve_document
    validate_real_document
packet_valid = refl

validate_application_packet-IsAcceptable_example :
    IsAcceptable platform files packet graph (some "/docs") 1000
validate_application_packet-IsAcceptable_example =
    validate_application_packet-IsAcceptable platform files (λ p. true) (λ g. true) packet graph
      (some "/docs") 1000 (record { valid = true; reasons = [] }) packet_valid refl

abbrev config : AutoApplyConfig
config = record {
  enabled = true;
  mode = auto;
  kill_switch = record {
    available = true;
    engaged = false;
    engaged_at = none;
    engaged_by = none;
    reason = none;
  };
  max_per_day = 5;
  cooldown_until = none;
  adapter_allowlist = "local-fixture" ∷ [];
  per_opportunity = [];
  exclusion_rules = [];
}

abbrev approval : ApprovalReference
approval = signed_approval (record {
  approval_id = "APP-1";
  operation = Types.auto_apply;
  approved_by = "operator";
  key_id = "K1";
  approved_at = "T900";
  expires_at = "T5000";
  approval_text_hash = "sha256:text";
  opportunity_id = "OPP-1";
  packet_hash = packet.packet_hash;
  adapter_id = "local-fixture";
  action_intent_hash = compute_action_intent_hash platform (record {
    operation = Types.auto_apply;
    opportunity_id = "OPP-1";
    packet_hash = packet.packet_hash;
    adapter_id = "local-fixture";
    reversibility_tag = r1;
    attempt_id = none;
  });
  allowed_fields = "application-packet" ∷ [];
  signature = "";
})

abbrev ledger : LedgerFile
ledger = record { lines = some []; has_directory = true; writable = true }

abbrev decision_input : AutoApplyInput
decision_input = record {
  config = config;
  packet = packet;
  claim_graph = graph;
  reversibility_tag = r1;
  high_stakes_flags = some no_flags;
  adapter_id = "local-fixture";
  approval_reference = some approval;
  trusted_approvers = approver ∷ [];
  risk_signals = some (record {
    captcha_present = some false;
    anti_bot_detected = some false;
    payment_required = some false;
    identity_check_required = some false;
    tos_unclear = some false;
    unsupported_license_claim = some false;
    credential_fabrication_requested = some false;
  });
  document_root = some "/docs";
  ledger = some ledger;
  authoritative_ledger_entries = none;
  action_id = none;
  fresh_action_id = "ACT-1";
  now = 1000;
}

abbrev world : World
world = record {
  platform = platform;
  files = files;
  config_schema = accept_any;
  packet_schema = accept_any;
  graph_schema = λ g. true;
  approval_schema = accept_any;
  entry_schema = λ e. true;
}

decided : (decide_auto_apply world decision_input).0.allowed ≡ true
unfolding validate_application_packet validate_claim_graph scan_claims claim_reasons
    compute_claim_text_hash sha256 normalize_space validate_recency scan_packet_claims
    packet_claim_reasons claim_index grounding_reasons packet_reasons compute_packet_hash stringify
    stable_stringify scan_documents validate_document is_within_root resolve_document
    validate_real_document decide_auto_apply record_decision judge gates config_gates adapter_gates
    risk_gates rate_gates packet_gates approval_gates effective_mode is_excluded is_in_cooldown
    has_high_stakes has_complete_high_stakes_assessment blocking_risk_signal
    has_complete_risk_signals daily_usage usage_on distinct_opportunities counts_on decision_entry
    append_ledger_entry slice_start decimal validate_approval_reference validate_window
    validate_binding signature_valid expected_intent_hash compute_action_intent_hash
    unsigned_approval binding_json read_ledger
decided = refl

decide_auto_apply-allowed_example :
    FitsSchemas world decision_input
    × IsArmed decision_input
    × IsShipped decision_input
    × IsClear decision_input
    × HasRoom world decision_input
    × IsAcceptable platform files packet graph (some "/docs") 1000
    × IsApproved world decision_input
decide_auto_apply-allowed_example = decide_auto_apply-allowed world decision_input decided

decide_auto_apply-IsRecorded_example :
    (after : LedgerFile) × ((decide_auto_apply world decision_input).1 ≡ some after)
    × (IsRecorded world decision_input ledger after [] (decide_auto_apply world decision_input).0
        ⊎ IsWithdrawn ledger after (decide_auto_apply world decision_input).0)
decide_auto_apply-IsRecorded_example =
    decide_auto_apply-IsRecorded world decision_input ledger [] refl refl tt

-- The same application under the configuration after the switch was engaged and `enable` was tried.
abbrev stopped : AutoApplyInput
stopped = record decision_input {
  config =
      calls platform (engage_kill_switch platform config "operator" "stop" 900) (enable auto ∷ []);
}

engaged_stays_stopped_example : (decide_auto_apply world stopped).0.allowed ≡ false
engaged_stays_stopped_example =
    engaged_stays_stopped world config "operator" "stop" 900 (enable auto ∷ []) stopped (tt, tt)
      refl

abbrev token : String
token = "REARM-AUTO-APPLY"

abbrev entry : ActionLedgerEntry
entry = record {
  action_id = "ACT-1";
  timestamp = "T1000";
  mode = "/auto-apply-config";
  opportunity_id = "OPP-1";
  reversibility_tag = r1;
  evidence_gate_passed = true;
  approval_required = true;
  approval_received = true;
  high_stakes_gate_passed = true;
  result = Types.draft_generated;
  blocked_by = none;
  confirmation_evidence_pointer = none;
}

abbrev earlier : ActionLedgerEntry
earlier = record entry { action_id = "ACT-0" }

append_ledger_entry-IsUnique_example :
    (some (earlier ∷ entry ∷ []) ≡ some (earlier ∷ entry ∷ [])) × IsUnique (earlier ∷ entry ∷ [])
unfolding append_ledger_entry
append_ledger_entry-IsUnique_example =
    append_ledger_entry-IsUnique (λ e. true)
      (record { lines = some (earlier ∷ []); has_directory = true; writable = true })
      (record { lines = some (earlier ∷ entry ∷ []); has_directory = true; writable = true }) entry
      (earlier ∷ []) refl (refl, tt) refl
