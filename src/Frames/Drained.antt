-- ===== src/Frames/Drained.antt =====
-- The loop of `accept` takes every whole frame off the buffer (ipc/protocol.ts).
use vocation_os.Prelude.{
  ℕ, zero, suc, ◌+◌, ◌≤◌, ◌≡◌, ◌≢◌, refl, inl, inr, List, [], ◌∷◌, ◌++◌, Option, none, arith,
  length, drop, ltb, Option-cases, Bool-cases, ap, sym, ◌∙◌,
}
use vocation_os.Frames.{
  max_ipc_buffer_bytes, ChannelError, frame_too_large, invalid_json, buffer_too_large, FrameChannel,
  fail, fail_and_destroy, deliver, waiting, frame, next_frame, drain, accept,
}
use vocation_os.Frames.Loop.{
  Next-cases, next_frame_lem, drain-waiting, drain-too_large, drain-invalid, drain-frame,
  accept-failed, accept-overflow, accept-fits, deliver-buffer,
}

drop-shorter {ℓ} :
    {A : Type ℓ} (n : ℕ) (xs : List A) → n ≤ length xs → length (drop n xs) + n ≤ length xs
drop-shorter zero xs h = omega arith
drop-shorter (suc n) [] h = omega (arith, h)
drop-shorter (suc n) (x ∷ xs) h =
    let le : n ≤ length xs = omega (arith, h) in omega (arith, drop-shorter n xs le)

-- A round takes at least four bytes off.
frame-shorter : (b body rest : List ℕ) → next_frame b ≡ frame body rest → length rest + 4 ≤ length b
frame-shorter b body rest h =
    let (len, _, _, whole, _, e) = next_frame_lem b body rest h in
    let shorter : length (drop (len + 4) b) + (len + 4) ≤ length b =
      drop-shorter (len + 4) b whole in
    rw e (omega (arith, shorter))

empty_waits : (b : List ℕ) → length b ≤ 0 → next_frame b ≡ waiting
unfolding next_frame
empty_waits [] h = refl
empty_waits (x ∷ b) h = absurd (ground arith)

module _ {V : Type 0} where
  destroyed_failed : (e : ChannelError) (c : FrameChannel V) → (fail_and_destroy e c).failure ≢ none
  unfolding fail_and_destroy fail
  destroyed_failed e c = λ h. ground arith

  waits_by :
      {c d : FrameChannel V} → c ≡ d → next_frame d.buffer ≡ waiting → next_frame c.buffer ≡ waiting
  waits_by e h = ap (λ x. next_frame x.buffer) e ∙ h

  module _ (parse : List ℕ → Option V) where
    drain_waits :
        (fuel : ℕ) (c : FrameChannel V)
        → length c.buffer ≤ fuel
        → (drain parse fuel c).failure ≡ none
        → next_frame (drain parse fuel c).buffer ≡ waiting
    unfolding drain
    drain_waits zero c le h = empty_waits c.buffer le
    drain_waits (suc fuel) c le h = elim (Next-cases (next_frame c.buffer)) [
      | inl e ↦ waits_by (drain-waiting parse fuel c e) e
      | inr (inl e) ↦ absurd (
          destroyed_failed frame_too_large c
            (sym (ap (λ x. x.failure) (drain-too_large parse fuel c e)) ∙ h))
      | inr (inr (body, (rest, e))) ↦
          let b : FrameChannel V = record c { buffer = rest } in
          elim (Option-cases (parse body)) [
            | inl n ↦ absurd (
                destroyed_failed invalid_json b
                  (sym (ap (λ x. x.failure) (drain-invalid parse fuel c body rest e n)) ∙ h))
            | inr (v, k) ↦
                let round = drain-frame parse fuel c body rest e v k in
                let cut : length rest + 4 ≤ length c.buffer = frame-shorter c.buffer body rest e in
                let less : length rest ≤ fuel = omega (arith, cut, le) in
                let shorter : length (deliver v b).buffer ≤ fuel = rw (deliver-buffer v b) less in
                waits_by round
                  (drain_waits fuel (deliver v b) shorter (sym (ap (λ x. x.failure) round) ∙ h))
          ]
    ]

    -- After `accept`, a channel that has not failed has no whole frame left in its buffer: the fuel of
    -- the loop is enough.
    pub accept_waits :
        (chunk : List ℕ) (c : FrameChannel V)
        → (accept parse chunk c).failure ≡ none
        → next_frame (accept parse chunk c).buffer ≡ waiting
    accept_waits chunk c h = elim (Option-cases c.failure) [
      | inr (e, f) ↦
          let same = accept-failed parse chunk c e f in
          let alive : c.failure ≡ none = sym (ap (λ x. x.failure) same) ∙ h in absurd (ground arith)
      | inl f ↦ elim (Bool-cases (ltb max_ipc_buffer_bytes (length c.buffer + length chunk))) [
        | inl k ↦ absurd (
            destroyed_failed buffer_too_large c
              (sym (ap (λ x. x.failure) (accept-overflow parse chunk c f k)) ∙ h))
        | inr k ↦
            let same = accept-fits parse chunk c f k in
            waits_by same (
              drain_waits (length (c.buffer ++ chunk)) (record c { buffer = c.buffer ++ chunk })
                (omega arith) (sym (ap (λ x. x.failure) same) ∙ h))
      ]
    ]
