-- ===== src/Campaign/Review.antt =====
-- intelligence/campaign-engine.ts: the items of the review queue, which are snoozed and resolved.
use vocation_os.Prelude.{
  ℕ, Bool, true, false, List, [], ◌∷◌, map, Option, none, some, String, keep, ok, err, ◌>>◌, guard,
  throw_if, leb, is_empty,
}
use vocation_os.Runtime.{Platform}
use vocation_os.Hash.{Json, str, arr, obj, end, field, stringify, ◌+++◌}
use vocation_os.Text.{trim, is_truthy, slice_start}
use vocation_os.Campaign.Engine.{
  Outcome, reasons_missing, evidence_missing, item_final, snooze_invalid, sorted_set, texts_json,
}

pub data ReviewQueueStatus : Type 0 where
  pending accepted rejected snoozed resolved : ReviewQueueStatus

pub data Resolution : Type 0 where
  accept reject merge keep_separate : Resolution

pub record ReviewQueueItem : Type 0 where
  pub queue_item_id : String
  pub opportunity_id : String
  pub campaign_id : String
  pub status : ReviewQueueStatus
  pub reasons : List String
  pub evidence_pointers : List String
  pub created_at : String
  pub snoozed_until : Option String
  pub resolution : Option Resolution

pub record ReviewQueueInput : Type 0 where
  pub opportunity_id : String
  pub campaign_id : String
  pub reasons : List String
  pub evidence_pointers : List String
  pub now : ℕ

-- `item.status !== "pending" && item.status !== "snoozed"`, negated.
abbrev pub is_open : ReviewQueueStatus → Bool
is_open pending = true
is_open snoozed = true
is_open _ = false

abbrev pub status_after : Resolution → ReviewQueueStatus
status_after reject = rejected
status_after _ = resolved

-- `resolveReviewQueueItem`
unfoldable pub resolve_review_queue_item : ReviewQueueItem → Resolution → Outcome ReviewQueueItem
resolve_review_queue_item item resolution = do
  guard (is_open item.status) item_final
  ok (record item {
    status = status_after resolution;
    resolution = some resolution;
    snoozed_until = none;
  })

module _ (p : Platform) where
  snoozed_item : ReviewQueueItem → ℕ → ReviewQueueItem
  snoozed_item item timestamp = record item {
    status = snoozed;
    resolution = none;
    snoozed_until = some (p.to_iso_string timestamp);
  }

  -- `snoozeReviewQueueItem`
  unfoldable pub snooze_review_queue_item :
      ReviewQueueItem → (snoozed_until : String) → (now : ℕ) → Outcome ReviewQueueItem
  unfolding snoozed_item
  snooze_review_queue_item item snoozed_until now = do
    guard (is_open item.status) item_final
    elim (p.parse_date snoozed_until) [
      | none ↦ err snooze_invalid
      | some timestamp ↦ do
        throw_if (leb timestamp now) snooze_invalid
        ok (snoozed_item item timestamp)
    ]

  module _ (text_le : String → String → Bool) (to_upper_case : String → String) where
    item_json : ReviewQueueInput → (evidence_pointers : List String) → Json
    item_json input evidence_pointers = obj (
        field "opportunityId" (str input.opportunity_id) (
          field "campaignId" (str input.campaign_id) (
            field "reasons" (arr (texts_json (sorted_set text_le input.reasons))) (
              field "evidencePointers" (arr (texts_json evidence_pointers))
                (field "createdAt" (str (p.to_iso_string input.now)) end)))))

    -- The item with the evidence that is left after trimming; the id is taken of the digest behind
    -- its prefix.
    unfoldable pub pending_item :
        ReviewQueueInput → (evidence_pointers : List String) → ReviewQueueItem
    unfolding item_json
    pending_item input evidence_pointers = record {
      queue_item_id =
          "RQ-"
          +++ to_upper_case
              (slice_start 24 (p.digest_hex (stringify p (item_json input evidence_pointers))));
      opportunity_id = input.opportunity_id;
      campaign_id = input.campaign_id;
      status = pending;
      reasons = sorted_set text_le input.reasons;
      evidence_pointers = evidence_pointers;
      created_at = p.to_iso_string input.now;
      snoozed_until = none;
      resolution = none;
    }

    abbrev pub trimmed_evidence : ReviewQueueInput → List String
    trimmed_evidence input = sorted_set text_le (keep is_truthy (map trim input.evidence_pointers))

    -- `createReviewQueueItem`
    unfoldable pub create_review_queue_item : ReviewQueueInput → Outcome ReviewQueueItem
    create_review_queue_item input = do
      throw_if (is_empty input.reasons) reasons_missing
      throw_if (is_empty (trimmed_evidence input)) evidence_missing
      ok (pending_item input (trimmed_evidence input))

-- One call on an item.
pub data ReviewCall : Type 0 where
  resolve : Resolution → ReviewCall
  snooze : (snoozed_until : String) → (now : ℕ) → ReviewCall

unfoldable pub run_call : Platform → ReviewQueueItem → ReviewCall → Outcome ReviewQueueItem
run_call p item (resolve resolution) = resolve_review_queue_item item resolution
run_call p item (snooze snoozed_until now) = snooze_review_queue_item p item snoozed_until now

-- The item after the calls, of which those that throw change nothing.
unfoldable pub run_calls : Platform → ReviewQueueItem → List ReviewCall → ReviewQueueItem
run_calls p item [] = item
run_calls p item (call ∷ calls) = elim (run_call p item call) [
  | ok next ↦ run_calls p next calls
  | err why ↦ run_calls p item calls
]
