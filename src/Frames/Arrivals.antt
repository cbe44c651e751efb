-- ===== src/Frames/Arrivals.antt =====
-- Which values have arrived in a frame channel (ipc/protocol.ts), and what a delivery adds.
use vocation_os.Prelude.{
  ℕ, suc, ◌+◌, ◌≤◌, ◌≡◌, ◌⊎◌, inl, inr, refl, sym, ap, List, [], ◌∷◌, ◌++◌, none, arith, length,
  length-append,
}
use mathlib.Core.List.{append_assoc, append-nil}
use vocation_os.Frames.{FrameChannel, Settled, resolved, rejected, deliver}

List-cases : (ws : List ℕ) → (ws ≡ []) ⊎ ((w : ℕ) × ((us : List ℕ) × (ws ≡ w ∷ us)))
List-cases [] = inl refl
List-cases (w ∷ us) = inr (w, (us, refl))

module _ {V : Type 0} where
  -- The values that `receive` has handed out.
  pub handed : List (ℕ × Settled V) → List V
  handed [] = []
  handed ((id, resolved v) ∷ ps) = v ∷ handed ps
  handed ((id, rejected e) ∷ ps) = handed ps

  handed-append : (ps qs : List (ℕ × Settled V)) → handed (ps ++ qs) ≡ handed ps ++ handed qs
  unfolding handed
  handed-append [] qs = refl
  handed-append ((id, resolved v) ∷ ps) qs = ap (λ vs. v ∷ vs) (handed-append ps qs)
  handed-append ((id, rejected e) ∷ ps) qs = handed-append ps qs

  -- The values that have arrived: those handed out, then those kept for the next `receive`.
  unfoldable pub arrived : FrameChannel V → List V
  arrived c = handed c.settled ++ c.queue

  -- An open channel with room for `n` more values.
  pub record IsReady (n : ℕ) (c : FrameChannel V) : Type 0 where
    pub alive : c.failure ≡ none
    pub exclusive : (c.waiters ≡ []) ⊎ (c.queue ≡ [])
    pub room : n + length c.queue ≤ length c.waiters + c.max_queued_frames

  pub deliver-IsReady :
      (n : ℕ) (v : V) (c : FrameChannel V) → IsReady (suc n) c → IsReady n (deliver v c)
  unfolding deliver
  deliver-IsReady n v c r = ground (arith, length-append c.queue (v ∷ []))

  deliver_woken :
      (w : ℕ) (ws : List ℕ) (v : V) (c : FrameChannel V)
      → c.waiters ≡ w ∷ ws
      → deliver v c ≡ record c { waiters = ws; settled = c.settled ++ (w, resolved v) ∷ [] }
  unfolding deliver
  deliver_woken w ws v c h = ground arith

  deliver_kept :
      (n : ℕ) (v : V) (c : FrameChannel V)
      → IsReady (suc n) c
      → c.waiters ≡ []
      → deliver v c ≡ record c { queue = c.queue ++ v ∷ [] }
  unfolding deliver
  deliver_kept n v c r h = ground arith

  pub deliver-arrived :
      (n : ℕ) (v : V) (c : FrameChannel V)
      → IsReady (suc n) c
      → arrived (deliver v c) ≡ arrived c ++ v ∷ []
  unfolding arrived handed
  deliver-arrived n v c r = elim (List-cases c.waiters) [
    | inl e ↦ rw (deliver_kept n v c r e) (sym (append_assoc (handed c.settled) c.queue (v ∷ [])))
    | inr (w, (ws, e)) ↦
        let none_kept : c.queue ≡ [] = ground arith in
        let left : handed (c.settled ++ (w, resolved v) ∷ []) ≡ handed c.settled ++ v ∷ [] =
          handed-append c.settled ((w, resolved v) ∷ []) in
        let nothing_after : (xs : List V) → xs ++ c.queue ≡ xs =
          λ xs. rw none_kept (append-nil xs) in
        rw (deliver_woken w ws v c e) (
          rw (left, nothing_after (handed c.settled ++ v ∷ []), nothing_after (handed c.settled))
            refl)
  ]
