-- ===== src/Examples/Channels.antt =====
-- The theorems on frame channels, at values that are sent as one byte.
use vocation_os.Prelude.{
  ℕ, ◌+◌, ◌≡◌, refl, inr, false, List, [], ◌∷◌, ◌++◌, Option, none, some, length, arith,
}
use vocation_os.Frames.{
  FrameChannel, new_channel, Event, data_arrives, receive_called, socket_closes, run, encode_frame,
  accept, drain, next_frame, deliver, waiting,
}
use vocation_os.Frames.Events.{IsSound, calls, run-from_new-IsSound, run-from_new-asked}
use vocation_os.Frames.Drained.{accept_waits}
use vocation_os.Frames.Arrivals.{arrived}
use vocation_os.Frames.Chunks.{encode_all, accept_all, joined, encode_all-accept_all}

abbrev print : ℕ → List ℕ
print n = n ∷ []

abbrev parse : List ℕ → Option ℕ
parse (n ∷ []) = some n
parse _ = none

-- A channel on which one `receive` waits.
abbrev channel : FrameChannel ℕ
channel = record {
  buffer = [];
  queue = [];
  waiters = 1 ∷ [];
  settled = [];
  failure = none;
  max_queued_frames = 16;
  destroyed = false;
}

abbrev fresh_channel : FrameChannel ℕ
fresh_channel = record channel { waiters = [] }

abbrev chunks : List (List ℕ)
chunks = (0 ∷ 0 ∷ []) ∷ (0 ∷ 1 ∷ 7 ∷ 0 ∷ 0 ∷ []) ∷ (0 ∷ 1 ∷ 8 ∷ []) ∷ []

encode_all-accept_all_example :
    (arrived (accept_all parse chunks channel) ≡ arrived channel ++ 7 ∷ 8 ∷ [])
    × ((accept_all parse chunks channel).failure ≡ none)
    × ((accept_all parse chunks channel).buffer ≡ [])
unfolding encode_all encode_frame joined
encode_all-accept_all_example =
    encode_all-accept_all print parse (λ v. refl) (7 ∷ 8 ∷ []) chunks channel refl
      (omega arith, (omega arith, (omega arith, tt)))
      (record { alive = refl; exclusive = inr refl; room = omega arith }) refl

abbrev events : List Event
events =
    receive_called 1 ∷ data_arrives (0 ∷ 0 ∷ 0 ∷ 1 ∷ 7 ∷ []) ∷ receive_called 2 ∷ socket_closes ∷ []

run-from_new-IsSound_example : IsSound (run parse events fresh_channel)
unfolding new_channel
run-from_new-IsSound_example = run-from_new-IsSound ℕ parse events 16 fresh_channel refl

run-from_new-asked_example :
    length (run parse events fresh_channel).waiters
      + length (run parse events fresh_channel).settled
    ≡ calls events
unfolding new_channel
run-from_new-asked_example = run-from_new-asked ℕ parse events 16 fresh_channel refl

-- A whole frame and the header of the next one.
abbrev chunk : List ℕ
chunk = 0 ∷ 0 ∷ 0 ∷ 1 ∷ 7 ∷ 0 ∷ 0 ∷ 0 ∷ 1 ∷ []

still_open : (accept parse chunk channel).failure ≡ none
unfolding accept drain next_frame deliver
still_open = refl

accept_waits_example : next_frame (accept parse chunk channel).buffer ≡ waiting
accept_waits_example = accept_waits parse chunk channel still_open
