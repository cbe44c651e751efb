-- ===== src/AutoApply/Gates.antt =====
-- What an allowed decision of decideAutoApply (auto-apply.ts) has been checked for.
use mathlib.Core.List.{Memᴰ}
use vocation_os.Prelude.{
  ℕ, ◌<◌, ◌≡◌, ◌≢◌, Bool, true, false, List, [], ◌∷◌, Option, none, some, arith, eq_iff,
  includes→mem, All, all, any, ok, err, Option-cases, Result-cases, inl, inr,
}
use vocation_os.Types.{r4, HighStakesFlags, ApprovalReference}
use vocation_os.Approval.{validate_approval_reference}
use vocation_os.Lifecycle.{flag_values, is_assessed}
use vocation_os.Claims.{
  synthetic, ApplicationPacket, validate_application_packet, validate_claim_graph,
}
use vocation_os.Claims.Grounded.{IsAcceptable, validate_application_packet-IsAcceptable}
use vocation_os.AutoApply.{
  auto, AutoApplyInput, AutoApplyDecision, World, is_raised, has_high_stakes,
  has_complete_high_stakes_assessment, effective_mode, is_excluded, is_in_cooldown,
  AutomationRiskSignals, signal_values, blocking_risk_signal, has_complete_risk_signals,
  daily_usage, decision_scope, config_gates, adapter_gates, risk_gates, rate_gates, packet_gates,
  approval_gates, gates, judge, decide_auto_apply, record_decision,
}

-- Every value was assessed, and is false.
abbrev pub AllFalse : List (Option Bool) → Type 0
AllFalse = All (λ v. v ≡ some false)

all_false :
    (vs : List (Option Bool)) → all is_assessed vs ≡ true → any is_raised vs ≡ false → AllFalse vs
all_false [] h k = tt
all_false (none ∷ vs) h k = absurd (ground arith)
all_false (some v ∷ vs) h k = (ground arith, all_false vs h (ground arith))

no_signal :
    (r : AutomationRiskSignals)
    → blocking_risk_signal r ≡ none
    → any is_raised (signal_values r) ≡ false
unfolding blocking_risk_signal
no_signal r h = ground arith

-- The configuration, the packet and the claim graph are valid under their schemas.
pub record FitsSchemas (w : World) (i : AutoApplyInput) : Type 0 where
  pub config : (w.config_schema i.config).valid ≡ true
  pub packet : (w.packet_schema i.packet).valid ≡ true
  pub graph : w.graph_schema i.claim_graph ≡ true

-- The configuration lets this opportunity be sent automatically.
pub record IsArmed (i : AutoApplyInput) : Type 0 where
  pub disengaged : i.config.kill_switch.engaged ≡ false
  pub enabled : i.config.enabled ≡ true
  pub mode : effective_mode i.config i.packet.opportunity_id ≡ auto
  pub included : is_excluded i.config i.packet.opportunity_id ≡ false

-- The adapter and the kind of action are fit for it.
pub record IsShipped (i : AutoApplyInput) : Type 0 where
  pub adapter : i.adapter_id ≡ "local-fixture"
  pub profile : i.claim_graph.profile_scope ≡ synthetic
  pub listed : Memᴰ i.adapter_id i.config.adapter_allowlist
  pub reversible : i.reversibility_tag ≢ r4

-- Every flag and every signal was assessed, and none is raised.
pub record IsClear (i : AutoApplyInput) : Type 0 where
  pub flags : HighStakesFlags
  pub assessed : i.high_stakes_flags ≡ some flags
  pub no_stakes : AllFalse (flag_values flags)
  pub signals : AutomationRiskSignals
  pub observed : i.risk_signals ≡ some signals
  pub no_signals : AllFalse (signal_values signals)

-- The day has room, and no cooldown is on.
pub record HasRoom (w : World) (i : AutoApplyInput) : Type 0 where
  pub usage : ℕ
  pub counted : daily_usage w i ≡ ok (some usage)
  pub room : usage < i.config.max_per_day
  pub rested : is_in_cooldown w.platform i.config i.now ≡ false

-- A trusted operator approved this very action.
pub record IsApproved (w : World) (i : AutoApplyInput) : Type 0 where
  pub approval : ApprovalReference
  pub given : i.approval_reference ≡ some approval
  pub valid :
      (validate_approval_reference w.platform w.approval_schema approval
        (decision_scope w i)
        i.trusted_approvers).valid
      ≡ true

module _ (w : World) (i : AutoApplyInput) where
  config-IsArmed : config_gates w i ≡ ok tt → IsArmed i
  unfolding config_gates
  config-IsArmed h = ground arith

  config-schemas :
      config_gates w i ≡ ok tt
      → ((w.config_schema i.config).valid ≡ true) × ((w.packet_schema i.packet).valid ≡ true)
  unfolding config_gates
  config-schemas h = (ground arith, ground arith)

  packet-graph_schema : packet_gates w i ≡ ok tt → w.graph_schema i.claim_graph ≡ true
  unfolding packet_gates validate_application_packet validate_claim_graph
  packet-graph_schema h = ground arith

  packet_gates-FitsSchemas : config_gates w i ≡ ok tt → packet_gates w i ≡ ok tt → FitsSchemas w i
  packet_gates-FitsSchemas c p =
      let (config, packet) = config-schemas c in
      record { config = config; packet = packet; graph = packet-graph_schema p }

  adapter-IsShipped : adapter_gates w i ≡ ok tt → IsShipped i
  unfolding adapter_gates
  adapter-IsShipped h = record {
    adapter = ground (arith, eq_iff i.adapter_id "local-fixture");
    profile = ground (arith, eq_iff i.adapter_id "local-fixture");
    listed = includes→mem i.config.adapter_allowlist i.adapter_id (ground arith);
    reversible = λ e. ground arith;
  }

  risk-IsClear : risk_gates w i ≡ ok tt → IsClear i
  unfolding risk_gates
  risk-IsClear h = elim (Option-cases i.high_stakes_flags) [
    | inl missing ↦ absurd (unfold has_complete_high_stakes_assessment in ground arith)
    | inr (f, ef) ↦ elim (Option-cases i.risk_signals) [
      | inl missing ↦ absurd (ground arith)
      | inr (r, er) ↦
          let complete : has_complete_high_stakes_assessment (some f) ≡ true = ground arith in
          let calm : has_high_stakes (some f) ≡ false = ground arith in
          let observed : has_complete_risk_signals r ≡ true = ground arith in
          let quiet : blocking_risk_signal r ≡ none = ground arith in
          record {
            flags = f;
            assessed = ef;
            no_stakes =
                all_false (flag_values f) (unfold has_complete_high_stakes_assessment in complete)
                  (unfold has_high_stakes in calm);
            signals = r;
            observed = er;
            no_signals =
                all_false (signal_values r) (unfold has_complete_risk_signals in observed)
                  (no_signal r quiet);
          }
    ]
  ]

  rate-HasRoom : rate_gates w i ≡ ok tt → HasRoom w i
  unfolding rate_gates
  rate-HasRoom h = elim (Result-cases (daily_usage w i)) [
    | inr (e, bad) ↦ absurd (ground arith)
    | inl (none, missing) ↦ absurd (ground arith)
    | inl (some usage, counted) ↦ record {
      usage = usage;
      counted = counted;
      room = ground arith;
      rested = ground arith;
    }
  ]

  approval-IsApproved : approval_gates w i ≡ ok tt → IsApproved w i
  unfolding approval_gates
  approval-IsApproved h = elim (Option-cases i.approval_reference) [
    | inl missing ↦ absurd (ground arith)
    | inr (a, given) ↦ record { approval = a; given = given; valid = ground arith }
  ]

  packet-IsAcceptable :
      packet_gates w i ≡ ok tt
      → IsAcceptable w.platform w.files i.packet i.claim_graph i.document_root i.now
  unfolding packet_gates
  packet-IsAcceptable h =
      let schema = λ (p : ApplicationPacket). (w.packet_schema p).valid in
      elim (Result-cases (
        validate_application_packet w.platform w.files schema w.graph_schema i.packet i.claim_graph
          i.document_root i.now)) [
            | inr (e, bad) ↦ absurd (ground arith)
            | inl (v, found) ↦
                validate_application_packet-IsAcceptable w.platform w.files schema w.graph_schema
                  i.packet i.claim_graph i.document_root i.now v found (ground arith)
          ]

gates-parts :
    (w : World) (i : AutoApplyInput)
    → gates w i ≡ ok tt
    → (config_gates w i ≡ ok tt)
      × (adapter_gates w i ≡ ok tt)
      × (risk_gates w i ≡ ok tt)
      × (rate_gates w i ≡ ok tt)
      × (packet_gates w i ≡ ok tt)
      × (approval_gates w i ≡ ok tt)
unfolding gates
gates-parts w i h =
    (ground arith, ground arith, ground arith, ground arith, ground arith, ground arith)

-- A gate that fails refuses.
module _ (w : World) (i : AutoApplyInput) (d : AutoApplyDecision) where
  config-refuses : config_gates w i ≡ err d → d.allowed ≡ false
  unfolding config_gates
  config-refuses h = ground arith

  adapter-refuses : adapter_gates w i ≡ err d → d.allowed ≡ false
  unfolding adapter_gates
  adapter-refuses h = ground arith

  risk-refuses : risk_gates w i ≡ err d → d.allowed ≡ false
  unfolding risk_gates
  risk-refuses h = ground arith

  rate-refuses : rate_gates w i ≡ err d → d.allowed ≡ false
  unfolding rate_gates
  rate-refuses h = ground arith

  packet-refuses : packet_gates w i ≡ err d → d.allowed ≡ false
  unfolding packet_gates
  packet-refuses h = ground arith

  approval-refuses : approval_gates w i ≡ err d → d.allowed ≡ false
  unfolding approval_gates
  approval-refuses h = ground arith

  gates-refuses : gates w i ≡ err d → d.allowed ≡ false
  unfolding gates
  gates-refuses h = ground (
    arith, config-refuses, adapter-refuses, risk-refuses, rate-refuses, packet-refuses,
    approval-refuses,
  )

judge-allowed : (w : World) (i : AutoApplyInput) → (judge w i).allowed ≡ true → gates w i ≡ ok tt
unfolding judge
judge-allowed w i h = elim (Result-cases (gates w i)) [
  | inl (u, e) ↦ ground arith
  | inr (d, e) ↦ let no_way : d.allowed ≡ false = gates-refuses w i d e in absurd (ground arith)
]

record_decision-allowed :
    (w : World) (i : AutoApplyInput) (d : AutoApplyDecision)
    → (record_decision w i d).0.allowed ≡ true
    → d.allowed ≡ true
unfolding record_decision
record_decision-allowed w i d h = ground arith

-- An allowed decision passed every gate: the configuration, the packet and the claim graph are valid
-- under their schemas, the switch is off and the configuration armed for this
-- opportunity, the adapter is the shipped one, on a synthetic profile and listed, the action is not
-- irreversible, every high-stakes flag and risk signal was assessed and is false, the day has room,
-- the packet is acceptable, and a trusted operator approved this very action.
pub decide_auto_apply-allowed :
    (w : World) (i : AutoApplyInput)
    → (decide_auto_apply w i).0.allowed ≡ true
    → FitsSchemas w i
      × IsArmed i
      × IsShipped i
      × IsClear i
      × HasRoom w i
      × IsAcceptable w.platform w.files i.packet i.claim_graph i.document_root i.now
      × IsApproved w i
unfolding decide_auto_apply
decide_auto_apply-allowed w i h =
    let passed = judge-allowed w i (record_decision-allowed w i (judge w i) h) in
    let (c, a, k, r, p, v) = gates-parts w i passed in
    (
      packet_gates-FitsSchemas w i c p,
      config-IsArmed w i c,
      adapter-IsShipped w i a,
      risk-IsClear w i k,
      rate-HasRoom w i r,
      packet-IsAcceptable w i p,
      approval-IsApproved w i v,
    )
