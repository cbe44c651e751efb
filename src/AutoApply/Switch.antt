-- ===== src/AutoApply/Switch.antt =====
-- The kill switch of auto-apply.ts, over any order of the operations on the configuration.
use vocation_os.Prelude.{
  ℕ, ◌≡◌, refl, true, false, List, [], ◌∷◌, String, arith, ok, err, Result, eq_iff, All, ap,
  Bool-cases, inl, inr, ◌===◌,
}
use vocation_os.Runtime.{Platform}
use vocation_os.AutoApply.{
  AutoApplyMode, manual, AutoApplyConfig, ConfigError, AutoApplyInput, World, engage_kill_switch,
  rearm_auto_apply, rearm_auto_apply_authorized, enable_auto_apply, decide_auto_apply,
}
use vocation_os.AutoApply.Gates.{decide_auto_apply-allowed}

-- A call on the configuration, which a failing call leaves as it is.
pub data Call : Type 0 where
  engage : (engaged_by reason : String) (now : ℕ) → Call
  rearm : (token : String) → Call
  rearm_authorized : Call
  enable : (mode : AutoApplyMode) → Call

abbrev after : AutoApplyConfig → Result ConfigError AutoApplyConfig → AutoApplyConfig
after c (ok d) = d
after c (err e) = c

pub call : Platform → AutoApplyConfig → Call → AutoApplyConfig
call p c (engage by reason now) = engage_kill_switch p c by reason now
call p c (rearm token) = after c (rearm_auto_apply c token)
call p c rearm_authorized = rearm_auto_apply_authorized c
call p c (enable mode) = after c (enable_auto_apply c mode)

unfoldable pub calls : Platform → AutoApplyConfig → List Call → AutoApplyConfig
calls p c [] = c
calls p c (k ∷ ks) = calls p (call p c k) ks

-- A call that is no valid rearming.
abbrev pub IsNoRearm : Call → Type 0
IsNoRearm (engage by reason now) = Unit
IsNoRearm (rearm token) = (token === "REARM-AUTO-APPLY") ≡ false
IsNoRearm rearm_authorized = ⊥
IsNoRearm (enable mode) = Unit

abbrev IsStopped : AutoApplyConfig → Type 0
IsStopped c = (c.kill_switch.engaged ≡ true) × (c.enabled ≡ false)

call-IsStopped :
    (p : Platform) (c : AutoApplyConfig) (k : Call)
    → IsNoRearm k
    → IsStopped c
    → IsStopped (call p c k)
unfolding call engage_kill_switch rearm_auto_apply rearm_auto_apply_authorized enable_auto_apply
call-IsStopped p c (engage by reason now) n s = (refl, refl)
call-IsStopped p c (rearm token) n s = ground arith
call-IsStopped p c rearm_authorized n s = absurd n
call-IsStopped p c (enable mode) n s = ground arith

calls-IsStopped :
    (p : Platform) (c : AutoApplyConfig) (ks : List Call)
    → All IsNoRearm ks
    → IsStopped c
    → IsStopped (calls p c ks)
unfolding calls
calls-IsStopped p c [] n s = s
calls-IsStopped p c (k ∷ ks) (n, ns) s =
    calls-IsStopped p (call p c k) ks ns (call-IsStopped p c k n s)

engaged-IsStopped :
    (p : Platform) (c : AutoApplyConfig) (by reason : String) (now : ℕ)
    → IsStopped (engage_kill_switch p c by reason now)
unfolding engage_kill_switch
engaged-IsStopped p c by reason now = (refl, refl)

-- Once the kill switch is engaged, no calls let any decision be allowed, if none of them is the
-- authorised rearming and none a rearming with the right token: a packet that is judged under the
-- configuration they leave is refused.
pub engaged_stays_stopped :
    (w : World) (c : AutoApplyConfig) (by reason : String) (now : ℕ) (ks : List Call)
    (i : AutoApplyInput)
    → All IsNoRearm ks
    → i.config ≡ calls w.platform (engage_kill_switch w.platform c by reason now) ks
    → (decide_auto_apply w i).0.allowed ≡ false
engaged_stays_stopped w c by reason now ks i n e =
    elim (Bool-cases (decide_auto_apply w i).0.allowed) [
      | inr refused ↦ refused
      | inl allowed ↦
          let armed = (decide_auto_apply-allowed w i allowed).1 in
          let stopped =
            calls-IsStopped w.platform (engage_kill_switch w.platform c by reason now) ks n
              (engaged-IsStopped w.platform c by reason now) in
          absurd (ground (arith, ap (λ x. x.kill_switch.engaged) e))
    ]

-- Rearming takes the right token, and leaves the switch off, the automation disabled and its mode
-- manual.
pub rearmed_is_disabled :
    (p : Platform) (c d : AutoApplyConfig) (token : String)
    → rearm_auto_apply c token ≡ ok d
    → (token ≡ "REARM-AUTO-APPLY")
      × (d.enabled ≡ false)
      × (d.mode ≡ manual)
      × (d.kill_switch.engaged ≡ false)
unfolding rearm_auto_apply rearm_auto_apply_authorized
rearmed_is_disabled p c d token h =
    (ground (arith, eq_iff token "REARM-AUTO-APPLY"), ground arith, ground arith, ground arith)
