-- ===== src/Approval.antt =====
-- approval.ts: a signed approval is checked against the registry of approvers, the clock and the
-- action that it is meant for. hash.ts, computeActionIntentHash.
pub mod Granted
use vocation_os.Prelude.{
  ℕ, ◌+◌, Bool, true, false, not, ◌&&◌, ◌||◌, List, [], ◌∷◌, Option, none, some, String, ◌===◌,
  if◌then◌else◌, find, includes,
}
use vocation_os.Runtime.{Platform, SchemaValidation, before, at_most, apart}
use vocation_os.Hash.{
  Json, str, arr, obj, undefined, Items, nil, cons, Fields, end, field, stringify, sha256,
}
use vocation_os.Types.{
  ReversibilityTag, Operation, same_operation, tag_text, operation_text, ApprovalReference,
}

pub record ApprovalScope : Type 0 where
  pub operation : Operation
  pub opportunity_id : String
  pub packet_hash : String
  pub adapter_id : String
  pub reversibility_tag : ReversibilityTag
  pub required_field : String
  pub now : ℕ
  pub expected_action_intent_hash : Option String

pub record ApprovalValidationResult : Type 0 where
  pub valid : Bool
  pub blocked_by : Option String
  pub reasons : List String

pub record TrustedApprover : Type 0 where
  pub approved_by : String
  pub key_id : String
  pub public_key_pem : String

pub record ActionIntentBinding : Type 0 where
  pub operation : Operation
  pub opportunity_id : String
  pub packet_hash : String
  pub adapter_id : String
  pub reversibility_tag : ReversibilityTag
  pub attempt_id : Option String

abbrev pub items : List String → Items
items [] = nil
items (s ∷ ss) = cons (str s) (items ss)

-- An optional field is `undefined` where it is absent.
abbrev pub optional : Option String → Json
optional none = undefined
optional (some s) = str s

unfoldable pub binding_json : ActionIntentBinding → Json
binding_json b = obj (
    field "operation" (str (operation_text b.operation)) (
      field "opportunityId" (str b.opportunity_id) (
        field "packetHash" (str b.packet_hash) (
          field "adapterId" (str b.adapter_id) (
            field "reversibilityTag" (str (tag_text b.reversibility_tag))
              (field "attemptId" (optional b.attempt_id) end))))))

-- The approval without its signature.
unfoldable pub unsigned_approval : ApprovalReference → Json
unsigned_approval a = obj (
    field "approvalId" (str a.approval_id) (
      field "operation" (str (operation_text a.operation)) (
        field "approvedBy" (str a.approved_by) (
          field "keyId" (str a.key_id) (
            field "approvedAt" (str a.approved_at) (
              field "expiresAt" (str a.expires_at) (
                field "approvalTextHash" (str a.approval_text_hash) (
                  field "opportunityId" (str a.opportunity_id) (
                    field "packetHash" (str a.packet_hash) (
                      field "adapterId" (str a.adapter_id) (
                        field "actionIntentHash" (str a.action_intent_hash)
                          (field "allowedFields" (arr (items a.allowed_fields)) end))))))))))))

abbrev refused : String → List String → ApprovalValidationResult
refused code reasons = record { valid = false; blocked_by = some code; reasons = reasons }

-- `candidate.approvedBy === … && candidate.keyId === …`
abbrev pub is_signer : String → String → TrustedApprover → Bool
is_signer by key c = c.approved_by === by && c.key_id === key

-- A check that throws counts as failed.
abbrev pub checked : Option Bool → Bool
checked none = false
checked (some b) = b

module _ (p : Platform) where
  unfoldable pub compute_action_intent_hash : ActionIntentBinding → String
  unfolding binding_json
  compute_action_intent_hash b = sha256 p (stringify p (binding_json b))

  unfoldable pub signature_valid : ApprovalReference → TrustedApprover → Bool
  unfolding unsigned_approval
  signature_valid a t =
      checked (p.verify (stringify p (unsigned_approval a)) t.public_key_pem a.signature)

  -- `scope.expectedActionIntentHash ?? computeActionIntentHash({ … })`
  unfoldable pub expected_intent_hash : ApprovalScope → String
  expected_intent_hash scope = elim scope.expected_action_intent_hash [
    | some h ↦ h
    | none ↦ compute_action_intent_hash (record {
      operation = scope.operation;
      opportunity_id = scope.opportunity_id;
      packet_hash = scope.packet_hash;
      adapter_id = scope.adapter_id;
      reversibility_tag = scope.reversibility_tag;
      attempt_id = none;
    })
  ]

  -- The last check: the approval is bound to this very action.
  unfoldable pub validate_binding : ApprovalReference → ApprovalScope → ApprovalValidationResult
  validate_binding a scope =
      if not (same_operation a.operation scope.operation)
        || not (a.opportunity_id === scope.opportunity_id)
        || not (a.packet_hash === scope.packet_hash)
        || not (a.adapter_id === scope.adapter_id)
        || not (a.action_intent_hash === expected_intent_hash scope)
        || not (includes a.allowed_fields scope.required_field)
      then refused "approval-scope-mismatch" ("approval is not bound to this action intent" ∷ [])
      else record { valid = true; blocked_by = none; reasons = [] }

  -- The checks of the two timestamps, in their order.
  unfoldable pub validate_window : ApprovalReference → ApprovalScope → ApprovalValidationResult
  validate_window a scope =
      let approved_at = p.parse_date a.approved_at in
      let expires_at = p.parse_date a.expires_at in
      if before (some (scope.now + 300_000)) approved_at || at_most expires_at approved_at
      then refused "approval-timestamp-invalid" ("approval timestamps are inconsistent" ∷ [])
      else if at_most expires_at (some scope.now)
      then refused "approval-expired" ("approval has expired" ∷ [])
      else if apart expires_at approved_at 86_400_000
      then refused "approval-window-too-wide" ("approval validity must not exceed 24 hours" ∷ [])
      else validate_binding a scope

  -- `schema` is `validateAgainstSchema("approval-reference", approval)`.
  unfoldable pub validate_approval_reference :
      (schema : ApprovalReference → SchemaValidation)
      → ApprovalReference
      → ApprovalScope
      → List TrustedApprover
      → ApprovalValidationResult
  validate_approval_reference schema a scope trusted =
      if not (schema a).valid
      then refused "approval-invalid" (schema a).errors
      else elim (find (is_signer a.approved_by a.key_id) trusted) [
        | none ↦
            refused "approver-not-trusted"
              ("approval signer is not in the trusted approver registry" ∷ [])
        | some t ↦
            if not (signature_valid a t)
            then refused "approval-signature-invalid" ("approval signature is invalid" ∷ [])
            else validate_window a scope
      ]
