-- ===== src/Campaign/Reviewed.antt =====
-- Every history of a review item (intelligence/campaign-engine.ts).
use vocation_os.Prelude.{
  ◌≡◌, ◌⊎◌, inl, inr, refl, Bool, true, false, List, [], ◌∷◌, Option, none, some, String, ok, arith,
  Result-cases, Option-cases, Bool-cases,
}
use vocation_os.Runtime.{Platform}
use vocation_os.Campaign.Review.{
  ReviewQueueStatus, pending, accepted, rejected, snoozed, resolved, Resolution, accept, reject,
  merge, keep_separate, ReviewQueueItem, ReviewQueueInput, is_open, status_after,
  resolve_review_queue_item, snooze_review_queue_item, pending_item, trimmed_evidence,
  create_review_queue_item, ReviewCall, resolve, snooze, run_call, run_calls,
}

-- The fields of an item fit its status: a time while it is snoozed, a resolution once it is closed.
abbrev pub FitsStatus : ReviewQueueStatus → Option String → Option Resolution → Type 0
FitsStatus pending until resolution = (until ≡ none) × (resolution ≡ none)
FitsStatus snoozed until resolution = ((at : String) × (until ≡ some at)) × (resolution ≡ none)
FitsStatus rejected until resolution = (until ≡ none) × (resolution ≡ some reject)
FitsStatus resolved until resolution =
    (until ≡ none)
    × ((resolution ≡ some accept) ⊎ (resolution ≡ some merge) ⊎ (resolution ≡ some keep_separate))
FitsStatus accepted until resolution = ⊥

abbrev pub IsConsistent : ReviewQueueItem → Type 0
IsConsistent item = FitsStatus item.status item.snoozed_until item.resolution

resolved-FitsStatus :
    (resolution : Resolution) → FitsStatus (status_after resolution) none (some resolution)
resolved-FitsStatus accept = (refl, inl refl)
resolved-FitsStatus reject = (refl, refl)
resolved-FitsStatus merge = (refl, inr (inl refl))
resolved-FitsStatus keep_separate = (refl, inr (inr refl))

module _ (p : Platform) where
  run_call-IsConsistent :
      (item next : ReviewQueueItem) (call : ReviewCall)
      → run_call p item call ≡ ok next
      → IsConsistent next
  unfolding run_call resolve_review_queue_item snooze_review_queue_item
  run_call-IsConsistent item next (resolve resolution) h =
      let made : next ≡ record item {
        status = status_after resolution;
        resolution = some resolution;
        snoozed_until = none;
      } =
        ground arith in
      rw made (resolved-FitsStatus resolution)
  run_call-IsConsistent item next (snooze until now) h = elim (Option-cases (p.parse_date until)) [
    | inl unreadable ↦ absurd (ground arith)
    | inr (at, read) ↦
        let made : next ≡ record item {
          status = snoozed;
          resolution = none;
          snoozed_until = some (p.to_iso_string at);
        } =
          ground arith in
        rw made ((p.to_iso_string at, refl), refl)
  ]

  run_calls-nil : (item : ReviewQueueItem) → run_calls p item [] ≡ item
  unfolding run_calls
  run_calls-nil item = refl

  run_calls-IsConsistent :
      (item : ReviewQueueItem) (calls : List ReviewCall)
      → IsConsistent item
      → IsConsistent (run_calls p item calls)
  unfolding run_calls
  run_calls-IsConsistent item [] fits = rw (run_calls-nil item) fits
  run_calls-IsConsistent item (call ∷ calls) fits = elim (Result-cases (run_call p item call)) [
    | inl (next, e) ↦
        rw (run_calls, e)
          (run_calls-IsConsistent next calls (run_call-IsConsistent item next call e))
    | inr (why, e) ↦ rw (run_calls, e) (run_calls-IsConsistent item calls fits)
  ]

  run_calls-closed :
      (item : ReviewQueueItem) (calls : List ReviewCall)
      → is_open item.status ≡ false
      → run_calls p item calls ≡ item
  unfolding run_calls run_call resolve_review_queue_item snooze_review_queue_item
  run_calls-closed item [] closed = refl
  run_calls-closed item (resolve resolution ∷ calls) closed =
      ground (arith, run_calls-closed item calls)
  run_calls-closed item (snooze until now ∷ calls) closed =
      ground (arith, run_calls-closed item calls)

created-IsConsistent :
    (p : Platform) (text_le : String → String → Bool) (to_upper_case : String → String)
    (input : ReviewQueueInput) (item : ReviewQueueItem)
    → create_review_queue_item p text_le to_upper_case input ≡ ok item
    → IsConsistent item
unfolding create_review_queue_item pending_item
created-IsConsistent p text_le to_upper_case input item h =
    let made : item
        ≡ pending_item p text_le to_upper_case input
            (trimmed_evidence p text_le to_upper_case input) =
      ground arith in
    rw made (refl, refl)

-- After any calls on an item that was created, its fields fit its status, and it is still open or no
-- further calls change it.
pub create-run_calls :
    (p : Platform) (text_le : String → String → Bool) (to_upper_case : String → String)
    (input : ReviewQueueInput) (item : ReviewQueueItem) (calls more : List ReviewCall)
    → create_review_queue_item p text_le to_upper_case input ≡ ok item
    → IsConsistent (run_calls p item calls)
      × ((is_open (run_calls p item calls).status ≡ true)
          ⊎ (run_calls p (run_calls p item calls) more ≡ run_calls p item calls))
create-run_calls p text_le to_upper_case input item calls more h = (
  run_calls-IsConsistent p item calls (created-IsConsistent p text_le to_upper_case input item h),
  elim (Bool-cases (is_open (run_calls p item calls).status)) [
    | inl still_open ↦ inl still_open
    | inr closed ↦ inr (run_calls-closed p (run_calls p item calls) more closed)
  ],
)
