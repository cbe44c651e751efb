-- ===== src/Frames/Events.antt =====
-- What every event keeps in a frame channel (ipc/protocol.ts).
use vocation_os.Frames.Loop.{accept_keeps}
use vocation_os.Prelude.{
  ℕ, zero, suc, ◌+◌, ◌≤◌, ◌≡◌, ◌⊎◌, refl, true, List, [], ◌∷◌, map, Option, some, arith, length,
  length-append,
}
use vocation_os.Frames.{
  max_ipc_buffer_bytes, ChannelError, queue_limit_exceeded, FrameChannel, socket_error,
  connection_closed, new_channel, fail, fail_and_destroy, deliver, accept, receive, time_out,
  is_waiting, without, Event, data_arrives, socket_fails, socket_closes, receive_called,
  timer_fires, handle, run, reject_with,
}

length-reject :
    (V : Type 0) (e : ChannelError) (ws : List ℕ)
    → length (map (reject_with {V = V} e) ws) ≡ length ws
length-reject V e [] = refl
length-reject V e (w ∷ ws) = omega (arith, length-reject V e ws)

length-without :
    (id : ℕ) (ws : List ℕ) → is_waiting id ws ≡ true → suc (length (without id ws)) ≡ length ws
length-without id [] h = cc
length-without id (w ∷ ws) h = ground (arith, length-without id ws)

-- A promise waits only for a value that is not there, no more values are kept than the limit, the
-- buffer is bounded, and nothing waits on a channel that has failed.
pub record IsSound {V : Type 0} (c : FrameChannel V) : Type 0 where
  pub exclusive : (c.waiters ≡ []) ⊎ (c.queue ≡ [])
  pub within_limit : length c.queue ≤ c.max_queued_frames
  pub bounded : length c.buffer ≤ max_ipc_buffer_bytes
  pub released : (e : ChannelError) → c.failure ≡ some e → c.waiters ≡ []

-- How often `receive` is called.
unfoldable pub calls : List Event → ℕ
calls [] = 0
calls (receive_called id ∷ es) = suc (calls es)
calls (_ ∷ es) = calls es

module _ {V : Type 0} where
  fail-IsSound : (e : ChannelError) (c : FrameChannel V) → IsSound c → IsSound (fail e c)
  unfolding fail
  fail-IsSound e c s = ground arith

  fail_and_destroy-IsSound :
      (e : ChannelError) (c : FrameChannel V) → IsSound c → IsSound (fail_and_destroy e c)
  unfolding fail_and_destroy fail
  fail_and_destroy-IsSound e c s = ground arith

  deliver-IsSound : (v : V) (c : FrameChannel V) → IsSound c → IsSound (deliver v c)
  unfolding deliver fail_and_destroy fail
  deliver-IsSound v c s = ground (arith, length-append c.queue (v ∷ []))

  -- The promises that were asked for: those that are settled and those that wait.
  asked : FrameChannel V → ℕ
  asked c = length c.waiters + length c.settled

  fail-asked : (e : ChannelError) (c : FrameChannel V) → asked (fail e c) ≡ asked c
  unfolding fail asked
  fail-asked e c =
      ground (
        arith,
        length-append c.settled (map (reject_with e) c.waiters),
        length-reject V e c.waiters,
      )

  destroy-asked : (e : ChannelError) (c : FrameChannel V) → asked (fail_and_destroy e c) ≡ asked c
  unfolding fail_and_destroy asked
  destroy-asked e c = fail-asked e c

  deliver-asked : (v : V) (c : FrameChannel V) → asked (deliver v c) ≡ asked c
  unfolding deliver asked
  deliver-asked v c = grind (arith, destroy-asked queue_limit_exceeded c, length-append)

  receive-IsSound : (id : ℕ) (c : FrameChannel V) → IsSound c → IsSound (receive id c)
  unfolding receive
  receive-IsSound id c s = ground arith

  receive-asked : (id : ℕ) (c : FrameChannel V) → asked (receive id c) ≡ suc (asked c)
  unfolding receive asked
  receive-asked id c = grind (arith, length-append)

  time_out-IsSound : (id : ℕ) (c : FrameChannel V) → IsSound c → IsSound (time_out id c)
  unfolding time_out
  time_out-IsSound id c s = ground arith

  time_out-asked : (id : ℕ) (c : FrameChannel V) → asked (time_out id c) ≡ asked c
  unfolding time_out asked
  time_out-asked id c = grind (arith, length-append, length-without id c.waiters)

  new-IsSound : (limit : ℕ) (c : FrameChannel V) → new_channel limit ≡ some c → IsSound c
  unfolding new_channel
  new-IsSound zero c h = ground arith
  new-IsSound (suc n) c h = ground arith

  new-asked : (limit : ℕ) (c : FrameChannel V) → new_channel limit ≡ some c → asked c ≡ 0
  unfolding new_channel asked
  new-asked zero c h = ground arith
  new-asked (suc n) c h = ground arith

  module _ (parse : List ℕ → Option V) where
    buffer-IsSound :
        (b : List ℕ) (c : FrameChannel V)
        → length b ≤ max_ipc_buffer_bytes
        → IsSound c
        → IsSound (record c { buffer = b })
    buffer-IsSound b c le s = record {
      exclusive = s.exclusive;
      within_limit = s.within_limit;
      bounded = le;
      released = s.released;
    }

    buffer-asked : (b : List ℕ) (c : FrameChannel V) → asked (record c { buffer = b }) ≡ asked c
    unfolding asked
    buffer-asked b c = refl

    accept-asked : (chunk : List ℕ) (c : FrameChannel V) → asked (accept parse chunk c) ≡ asked c
    accept-asked chunk c =
        accept_keeps parse (λ x. asked x ≡ asked c) (λ e x q. rw (destroy-asked e x) q)
          (λ v x q. rw (deliver-asked v x) q) (λ b x le q. rw (buffer-asked b x) q) chunk c refl

    handle-IsSound : (e : Event) (c : FrameChannel V) → IsSound c → IsSound (handle parse e c)
    unfolding handle
    handle-IsSound (data_arrives chunk) c s =
        accept_keeps parse IsSound fail_and_destroy-IsSound deliver-IsSound buffer-IsSound chunk c s
    handle-IsSound socket_fails c s = fail-IsSound _ c s
    handle-IsSound socket_closes c s = fail-IsSound _ c s
    handle-IsSound (receive_called id) c s = receive-IsSound id c s
    handle-IsSound (timer_fires id) c s = time_out-IsSound id c s

    handle-asked :
        (e : Event) (c : FrameChannel V) → asked (handle parse e c) ≡ calls (e ∷ []) + asked c
    unfolding handle calls
    handle-asked (data_arrives chunk) c = omega (arith, accept-asked chunk c)
    handle-asked socket_fails c = omega (arith, fail-asked socket_error c)
    handle-asked socket_closes c = omega (arith, fail-asked connection_closed c)
    handle-asked (receive_called id) c = omega (arith, receive-asked id c)
    handle-asked (timer_fires id) c = omega (arith, time_out-asked id c)

    run-IsSound : (es : List Event) (c : FrameChannel V) → IsSound c → IsSound (run parse es c)
    unfolding run
    run-IsSound [] c s = s
    run-IsSound (e ∷ es) c s = run-IsSound es (handle parse e c) (handle-IsSound e c s)

    run-asked : (es : List Event) (c : FrameChannel V) → asked (run parse es c) ≡ calls es + asked c
    unfolding run calls
    run-asked [] c = omega arith
    run-asked (data_arrives chunk ∷ es) c = omega (
      arith,
      run-asked es (handle parse (data_arrives chunk) c),
      handle-asked (data_arrives chunk) c,
    )
    run-asked (socket_fails ∷ es) c =
        omega (arith, run-asked es (handle parse socket_fails c), handle-asked socket_fails c)
    run-asked (socket_closes ∷ es) c =
        omega (arith, run-asked es (handle parse socket_closes c), handle-asked socket_closes c)
    run-asked (receive_called id ∷ es) c = omega (
      arith,
      run-asked es (handle parse (receive_called id) c),
      handle-asked (receive_called id) c,
    )
    run-asked (timer_fires id ∷ es) c =
        omega
          (arith, run-asked es (handle parse (timer_fires id) c), handle-asked (timer_fires id) c)

-- A channel stays sound in every run of a new channel: a promise waits only while no value is
-- there, at most `max_queued_frames` values are kept, the buffer is bounded, and nothing waits once
-- the channel has failed.
pub run-from_new-IsSound :
    (V : Type 0) (parse : List ℕ → Option V) (es : List Event) (limit : ℕ) (c : FrameChannel V)
    → new_channel limit ≡ some c
    → IsSound (run parse es c)
run-from_new-IsSound V parse es limit c h = run-IsSound parse es c (new-IsSound limit c h)

-- In every run of a new channel, the promises that `receive` has settled and those that still wait
-- are as many as the calls of `receive`.
pub run-from_new-asked :
    (V : Type 0) (parse : List ℕ → Option V) (es : List Event) (limit : ℕ) (c : FrameChannel V)
    → new_channel limit ≡ some c
    → length (run parse es c).waiters + length (run parse es c).settled ≡ calls es
unfolding asked
run-from_new-asked V parse es limit c h = omega (arith, run-asked parse es c, new-asked limit c h)
