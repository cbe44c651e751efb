-- ===== src/AutoApply/Config.antt =====
-- auto-apply.ts: the configuration with its kill switch, and what a decision is given.
use vocation_os.Prelude.{
  ℕ, Bool, true, false, List, [], ◌∷◌, Option, none, some, String, ◌===◌, Result, ok, ◌>>◌, guard,
  throw_if,
}
use vocation_os.Runtime.{Platform, SchemaValidation}
use vocation_os.Types.{ReversibilityTag, HighStakesFlags, ApprovalReference, ActionLedgerEntry}
use vocation_os.Approval.{TrustedApprover}
use vocation_os.Claims.{ClaimGraph, ApplicationPacket, FileSystem}
use vocation_os.ActionLedger.{LedgerFile, LedgerError}

pub data AutoApplyMode : Type 0 where
  manual draft_only auto : AutoApplyMode

abbrev pub is_auto : AutoApplyMode → Bool
is_auto auto = true
is_auto _ = false

pub record KillSwitchState : Type 0 where
  pub available : Bool
  pub engaged : Bool
  pub engaged_at : Option String
  pub engaged_by : Option String
  pub reason : Option String

pub record Override : Type 0 where
  pub mode : Option AutoApplyMode
  pub excluded : Option Bool

pub record AutoApplyConfig : Type 0 where
  pub enabled : Bool
  pub mode : AutoApplyMode
  pub kill_switch : KillSwitchState
  pub max_per_day : ℕ
  pub cooldown_until : Option String
  pub adapter_allowlist : List String
  pub per_opportunity : List (String × Override)
  pub exclusion_rules : List String

-- An observation is `none` where its key is missing.
pub record AutomationRiskSignals : Type 0 where
  pub captcha_present : Option Bool
  pub anti_bot_detected : Option Bool
  pub payment_required : Option Bool
  pub identity_check_required : Option Bool
  pub tos_unclear : Option Bool
  pub unsupported_license_claim : Option Bool
  pub credential_fabrication_requested : Option Bool

pub record AutoApplyDecision : Type 0 where
  pub allowed : Bool
  pub blocked_by : Option String
  pub reasons : List String
  pub required_approvals : List String
  pub ledger_action_id : Option String
  pub confirmation_evidence_required : Bool
  pub audit_error : Option LedgerError

-- `ledger` is the file at `ledgerPath`, if one is given; `fresh_action_id` is what `createActionId`
-- gives, and `now` the one time that the clock shows during the decision.
pub record AutoApplyInput : Type 0 where
  pub config : AutoApplyConfig
  pub packet : ApplicationPacket
  pub claim_graph : ClaimGraph
  pub reversibility_tag : ReversibilityTag
  pub high_stakes_flags : Option HighStakesFlags
  pub adapter_id : String
  pub approval_reference : Option ApprovalReference
  pub trusted_approvers : List TrustedApprover
  pub risk_signals : Option AutomationRiskSignals
  pub document_root : Option String
  pub ledger : Option LedgerFile
  pub authoritative_ledger_entries : Option (List ActionLedgerEntry)
  pub action_id : Option String
  pub fresh_action_id : String
  pub now : ℕ

-- What the decision is given: the platform, the files, and the validators of the JSON schemas.
pub record World : Type 0 where
  pub platform : Platform
  pub files : FileSystem
  pub config_schema : AutoApplyConfig → SchemaValidation
  pub packet_schema : ApplicationPacket → SchemaValidation
  pub graph_schema : ClaimGraph → Bool
  pub approval_schema : ApprovalReference → SchemaValidation
  pub entry_schema : ActionLedgerEntry → Bool

default_auto_apply_config : AutoApplyConfig
default_auto_apply_config = record {
  enabled = false;
  mode = manual;
  kill_switch = record {
    available = true;
    engaged = false;
    engaged_at = none;
    engaged_by = none;
    reason = none;
  };
  max_per_day = 5;
  cooldown_until = none;
  adapter_allowlist = "local-fixture" ∷ [];
  per_opportunity = [];
  exclusion_rules =
      "captcha" ∷ "anti-bot" ∷ "payment" ∷ "identity-check" ∷ "credential-fabrication"
      ∷ "unsupported-license-claim" ∷ "tos-unclear" ∷ [];
}

-- The operations on the configuration.
pub data ConfigError : Type 0 where
  invalid_rearm_token kill_switch_is_engaged : ConfigError

unfoldable pub engage_kill_switch :
    Platform → AutoApplyConfig → (engaged_by reason : String) → (now : ℕ) → AutoApplyConfig
engage_kill_switch p c engaged_by reason now = record c {
  enabled = false;
  mode = manual;
  kill_switch = record {
    available = true;
    engaged = true;
    engaged_at = some (p.to_iso_string now);
    engaged_by = some engaged_by;
    reason = some reason;
  };
}

unfoldable pub rearm_auto_apply_authorized : AutoApplyConfig → AutoApplyConfig
rearm_auto_apply_authorized c = record c {
  enabled = false;
  mode = manual;
  kill_switch = record {
    available = true;
    engaged = false;
    engaged_at = none;
    engaged_by = none;
    reason = none;
  };
}

unfoldable pub rearm_auto_apply : AutoApplyConfig → String → Result ConfigError AutoApplyConfig
unfolding rearm_auto_apply_authorized
rearm_auto_apply c token = do
  guard (token === "REARM-AUTO-APPLY") invalid_rearm_token
  ok (rearm_auto_apply_authorized c)

unfoldable pub enable_auto_apply :
    AutoApplyConfig → AutoApplyMode → Result ConfigError AutoApplyConfig
enable_auto_apply c mode = do
  throw_if c.kill_switch.engaged kill_switch_is_engaged
  ok (record c { enabled = true; mode = mode })
