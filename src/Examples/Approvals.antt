-- ===== src/Examples/Approvals.antt =====
-- The theorems on approvals, at the approval of an attempt and at one without a readable expiry.
use vocation_os.Prelude.{◌≡◌, ◌↔◌, refl, true, [], ◌∷◌, arith}
use vocation_os.Hash.{stringify, stable_stringify, sha256}
use vocation_os.Types.{ApprovalReference}
use vocation_os.Approval.{
  ApprovalScope, validate_approval_reference, validate_window, validate_binding, signature_valid,
  expected_intent_hash, compute_action_intent_hash, unsigned_approval, binding_json,
}
use vocation_os.Approval.Granted.{
  IsGranted, validate_approval_reference-IsGranted, validate_approval_reference-unreadable_expiry,
}
use vocation_os.Lifecycle.{approval_scope, prepared_attempt}
use vocation_os.Examples.Base.{platform, accept_any, approver, signed_approval}
use vocation_os.Examples.Attempts.{services, first, approval}

abbrev scope : ApprovalScope
scope = approval_scope services first 2000

validate_approval_reference-IsGranted_example :
    ((validate_approval_reference platform accept_any approval scope (approver ∷ [])).valid ≡ true)
    ↔ IsGranted platform accept_any approval scope (approver ∷ []) 900 5000
validate_approval_reference-IsGranted_example =
    validate_approval_reference-IsGranted platform accept_any approval scope (approver ∷ []) 900
      5000 refl refl

-- A second that no `Date` has.
abbrev endless : ApprovalReference
endless = signed_approval (record approval { expires_at = "2026-06-30T23:59:60Z" })

endless_valid :
    (validate_approval_reference platform accept_any endless scope (approver ∷ [])).valid ≡ true
unfolding validate_approval_reference validate_window validate_binding signature_valid
    expected_intent_hash unsigned_approval prepared_attempt compute_action_intent_hash binding_json
    stringify stable_stringify sha256
endless_valid = refl

validate_approval_reference-unreadable_expiry_example :
    (validate_approval_reference platform accept_any endless
      (record scope { now = 900_000_000 })
      (approver ∷ [])).valid
    ≡ true
validate_approval_reference-unreadable_expiry_example =
    validate_approval_reference-unreadable_expiry platform accept_any endless scope (approver ∷ [])
      900_000_000 refl (omega arith) endless_valid
