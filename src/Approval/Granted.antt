-- ===== src/Approval/Granted.antt =====
-- What an approval that passes validateApprovalReference (approval.ts) has been checked for.
use mathlib.Core.List.{Memᴰ}
use vocation_os.Prelude.{
  ℕ, ◌+◌, ◌-◌, ◌≤◌, ◌<◌, ◌≡◌, refl, ◌↔◌, inl, inr, true, List, [], ◌∷◌, none, some, String, arith,
  eq_iff, find, includes→mem, mem→includes, Option-cases, Bool-cases,
}
use vocation_os.Runtime.{Platform, SchemaValidation}
use vocation_os.Types.{ApprovalReference, Operation, same_operation, auto_apply, forced_score}
use vocation_os.Approval.{
  ApprovalScope, TrustedApprover, is_signer, signature_valid, expected_intent_hash,
  validate_binding, validate_window, validate_approval_reference,
}

same_operation_iff : (o q : Operation) → (same_operation o q ≡ true) ↔ (o ≡ q)
same_operation_iff auto_apply auto_apply = ground arith
same_operation_iff auto_apply forced_score = ground arith
same_operation_iff forced_score _ = ground arith

-- The approval names this action: its operation, opportunity, packet, adapter and intent, and the
-- field that the action needs.
pub record IsBound (p : Platform) (a : ApprovalReference) (scope : ApprovalScope) : Type 0 where
  pub operation : a.operation ≡ scope.operation
  pub opportunity : a.opportunity_id ≡ scope.opportunity_id
  pub packet : a.packet_hash ≡ scope.packet_hash
  pub adapter : a.adapter_id ≡ scope.adapter_id
  pub intent : a.action_intent_hash ≡ expected_intent_hash p scope
  pub field : Memᴰ scope.required_field a.allowed_fields

-- The approval holds now: it was given at most five minutes ahead of the clock, has not expired,
-- and spans at most a day.
pub record IsCurrent (from until now : ℕ) : Type 0 where
  pub given : from ≤ now + 300_000
  pub ordered : from < until
  pub unexpired : now < until
  pub narrow : until - from ≤ 86_400_000

-- The first registered approver with this identity and key.
pub data FirstSigner (by key : String) : List TrustedApprover → TrustedApprover → Type 0 where
  here :
      {t : TrustedApprover} {ts : List TrustedApprover}
      → t.approved_by ≡ by
      → t.key_id ≡ key
      → FirstSigner by key (t ∷ ts) t
  later :
      {t u : TrustedApprover} {ts : List TrustedApprover}
      → ¬ ((t.approved_by ≡ by) × (t.key_id ≡ key))
      → FirstSigner by key ts u
      → FirstSigner by key (t ∷ ts) u

pub record IsGranted (p : Platform) (schema : ApprovalReference → SchemaValidation)
    (a : ApprovalReference) (scope : ApprovalScope) (trusted : List TrustedApprover)
    (from until : ℕ) : Type 0 where
  pub well_formed : (schema a).valid ≡ true
  pub signer : TrustedApprover
  pub registered : FirstSigner a.approved_by a.key_id trusted signer
  pub signed : signature_valid p a signer ≡ true
  pub current : IsCurrent from until scope.now
  pub bound : IsBound p a scope

signer_iff :
    (by key : String) (t : TrustedApprover)
    → (is_signer by key t ≡ true) ↔ ((t.approved_by ≡ by) × (t.key_id ≡ key))
signer_iff by key t = ground (arith, eq_iff t.approved_by by, eq_iff t.key_id key)

find→FirstSigner :
    (by key : String) (ts : List TrustedApprover) (t : TrustedApprover)
    → find (is_signer by key) ts ≡ some t
    → FirstSigner by key ts t
find→FirstSigner by key [] t h = cc
find→FirstSigner by key (u ∷ us) t h = elim (Bool-cases (is_signer by key u)) [
  | inl e ↦
      let same : u ≡ t = ground arith in
      let (named, keyed) = (signer_iff by key u).0 e in rw (← same) (here named keyed)
  | inr n ↦
      later (λ both. cc ((signer_iff by key u).1 both))
        (find→FirstSigner by key us t (ground arith))
]

FirstSigner→find :
    {by key : String} {ts : List TrustedApprover} {t : TrustedApprover}
    → FirstSigner by key ts t
    → find (is_signer by key) ts ≡ some t
FirstSigner→find {by} {key} (here {t} e f) = rw ((signer_iff by key t).1 (e, f))
FirstSigner→find {by} {key} (later {t} n r) = elim (Bool-cases (is_signer by key t)) [
  | inl e ↦ absurd (n ((signer_iff by key t).0 e))
  | inr other ↦ rw other (FirstSigner→find r)
]

module _ (p : Platform) (a : ApprovalReference) (scope : ApprovalScope) where
  binding_iff : ((validate_binding p a scope).valid ≡ true) ↔ IsBound p a scope
  unfolding validate_binding
  binding_iff = (
    λ h. record {
      operation = ground (arith, same_operation_iff a.operation scope.operation);
      opportunity = ground (arith, eq_iff a.opportunity_id scope.opportunity_id);
      packet = ground (arith, eq_iff a.packet_hash scope.packet_hash);
      adapter = ground (arith, eq_iff a.adapter_id scope.adapter_id);
      intent = ground (arith, eq_iff a.action_intent_hash (expected_intent_hash p scope));
      field = includes→mem a.allowed_fields scope.required_field (ground arith);
    },
    λ b. ground (
      arith,
      same_operation_iff a.operation scope.operation,
      eq_iff a.opportunity_id scope.opportunity_id,
      eq_iff a.packet_hash scope.packet_hash,
      eq_iff a.adapter_id scope.adapter_id,
      eq_iff a.action_intent_hash (expected_intent_hash p scope),
      mem→includes b.field,
    ),
  )

  module _ (from until : ℕ) (starts : p.parse_date a.approved_at ≡ some from)
      (ends : p.parse_date a.expires_at ≡ some until) where
    window_iff :
        ((validate_window p a scope).valid ≡ true)
        ↔ (IsCurrent from until scope.now × ((validate_binding p a scope).valid ≡ true))
    unfolding validate_window
    window_iff = rw (starts, ends) (ground arith)

module _ (p : Platform) (schema : ApprovalReference → SchemaValidation) (a : ApprovalReference)
    (scope : ApprovalScope) (trusted : List TrustedApprover) where
  -- A valid verdict passed the schema, the registry and the signature, and came from the window.
  pub validate_steps : ((validate_approval_reference p schema a scope trusted).valid ≡ true) ↔ (
      ((schema a).valid ≡ true)
      × ((t : TrustedApprover) × (find (is_signer a.approved_by a.key_id) trusted ≡ some t)
          × (signature_valid p a t ≡ true))
      × ((validate_window p a scope).valid ≡ true))
  unfolding validate_approval_reference
  validate_steps = elim (Option-cases (find (is_signer a.approved_by a.key_id) trusted)) [
    | inl e ↦ (λ h. absurd (ground arith), λ (_, (_, f, _), _). absurd (ground arith))
    | inr (t, e) ↦ (
      λ h. (ground arith, (t, e, ground arith), ground arith),
      λ (w, (u, f, s), v).
          let same : t ≡ u = ground arith in
          let signed : signature_valid p a t ≡ true = rw same s in ground arith,
    )
  ]

-- An approval whose two timestamps are readable is found valid exactly if it is granted: it fits the
-- schema, the first registered approver of its identity and key signed it, the clock is in its
-- window, and it is bound to the operation, opportunity, packet, adapter, intent and field at hand.
pub validate_approval_reference-IsGranted :
    (p : Platform) (schema : ApprovalReference → SchemaValidation) (a : ApprovalReference)
    (scope : ApprovalScope) (trusted : List TrustedApprover) (from until : ℕ)
    → p.parse_date a.approved_at ≡ some from
    → p.parse_date a.expires_at ≡ some until
    → ((validate_approval_reference p schema a scope trusted).valid ≡ true)
      ↔ IsGranted p schema a scope trusted from until
validate_approval_reference-IsGranted p schema a scope trusted from until starts ends =
    let steps = validate_steps p schema a scope trusted in
    let window = window_iff p a scope from until starts ends in
    let binding = binding_iff p a scope in
    (
      λ h.
          let (w, (t, f, s), v) = steps.0 h in
          let (c, b) = window.0 v in
          record {
            well_formed = w;
            signer = t;
            registered = find→FirstSigner a.approved_by a.key_id trusted t f;
            signed = s;
            current = c;
            bound = binding.0 b;
          },
      λ g. steps.1 (
        g.well_formed,
        (g.signer, FirstSigner→find g.registered, g.signed),
        window.1 (g.current, binding.1 g.bound),
      ),
    )

-- A verdict is valid exactly if it names nothing that blocked it.
pub validate_approval_reference-blocked_by :
    (p : Platform) (schema : ApprovalReference → SchemaValidation) (a : ApprovalReference)
    (scope : ApprovalScope) (trusted : List TrustedApprover)
    → let verdict = validate_approval_reference p schema a scope trusted in
      (verdict.valid ≡ true) ↔ (verdict.blocked_by ≡ none)
unfolding validate_approval_reference validate_window validate_binding
validate_approval_reference-blocked_by p schema a scope trusted = ground arith

binding_now :
    (p : Platform) (a : ApprovalReference) (scope : ApprovalScope) (then : ℕ)
    → validate_binding p a (record scope { now = then }) ≡ validate_binding p a scope
unfolding validate_binding expected_intent_hash
binding_now p a scope then = refl

window_unread :
    (p : Platform) (a : ApprovalReference) (scope : ApprovalScope) (then : ℕ)
    → p.parse_date a.expires_at ≡ none
    → scope.now ≤ then
    → (validate_window p a scope).valid ≡ true
    → (validate_window p a (record scope { now = then })).valid ≡ true
unfolding validate_window
window_unread p a scope then unread le h = rw unread (ground (arith, binding_now p a scope then))

-- An approval whose expiry is not a readable date, once it is found valid, is found valid at every
-- later time: without a readable date no check of the window fails.
pub validate_approval_reference-unreadable_expiry :
    (p : Platform) (schema : ApprovalReference → SchemaValidation) (a : ApprovalReference)
    (scope : ApprovalScope) (trusted : List TrustedApprover) (then : ℕ)
    → p.parse_date a.expires_at ≡ none
    → scope.now ≤ then
    → (validate_approval_reference p schema a scope trusted).valid ≡ true
    → (validate_approval_reference p schema a (record scope { now = then }) trusted).valid ≡ true
validate_approval_reference-unreadable_expiry p schema a scope trusted then unread le h =
    let (w, signer, v) = (validate_steps p schema a scope trusted).0 h in
    (validate_steps p schema a (record scope { now = then }) trusted).1
      (w, signer, window_unread p a scope then unread le v)
