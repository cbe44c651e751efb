-- ===== src/Frames.antt =====
-- ipc/protocol.ts: frames on the local socket, and the channel that hands their values out.
-- A buffer is a list of bytes. `print` is `Buffer.from(JSON.stringify(v), "utf8")` and `parse` is
-- `JSON.parse(body.toString("utf8"))`, `none` where it throws. A `receive` is named by a number;
-- `settled` lists the promises that `receive` has settled, the oldest first.
pub mod Loop
pub mod Bytes
pub mod Drained
pub mod Events
pub mod Arrivals
pub mod Chunks
use vocation_os.Prelude.{
  ℕ, zero, suc, ◌+◌, ◌*◌, ◌/◌, ◌%◌, ◌==◌, Bool, true, false, List, [], ◌∷◌, ◌++◌, map, Option, none,
  some, ltb, if◌then◌else◌, length, take, drop, Result, ok, err, ◌>>◌, throw_if,
}

abbrev pub max_ipc_frame_bytes : ℕ
max_ipc_frame_bytes = 1024 * 1024

abbrev pub max_ipc_buffer_bytes : ℕ
max_ipc_buffer_bytes = (max_ipc_frame_bytes + 4) * 2

-- What a channel fails with, and `receive` and `send` reject with.
pub data ChannelError : Type 0 where
  frame_too_large buffer_too_large invalid_json queue_limit_exceeded : ChannelError
  connection_closed socket_error receive_timed_out : ChannelError

pub data Settled (V : Type 0) : Type 0 where
  resolved : V → Settled V
  rejected : ChannelError → Settled V

pub record FrameChannel (V : Type 0) : Type 0 where
  pub buffer : List ℕ
  pub queue : List V
  pub waiters : List ℕ
  pub settled : List (ℕ × Settled V)
  pub failure : Option ChannelError
  pub max_queued_frames : ℕ
  pub destroyed : Bool

-- `writeUInt32BE(n, 0)`
abbrev pub uint32_be : ℕ → List ℕ
uint32_be n = n / 16_777_216 % 256 ∷ n / 65_536 % 256 ∷ n / 256 % 256 ∷ n % 256 ∷ []

-- `readUInt32BE(0)` of a buffer of at least four bytes.
abbrev pub read_uint32_be : List ℕ → Option ℕ
read_uint32_be (a ∷ b ∷ c ∷ d ∷ _) = some (a * 16_777_216 + b * 65_536 + c * 256 + d)
read_uint32_be _ = none

-- The first frame of a buffer: what to do with it.
pub data Next : Type 0 where
  waiting too_large : Next
  frame : (body rest : List ℕ) → Next

unfoldable pub next_frame : List ℕ → Next
next_frame buffer = elim (read_uint32_be buffer) [
  | none ↦ waiting
  | some len ↦
      if ltb max_ipc_frame_bytes len
      then too_large
      else if ltb (length buffer) (len + 4)
      then waiting
      else frame (take len (drop 4 buffer)) (drop (len + 4) buffer)
]

module _ {V : Type 0} where
  -- `frame` is the printed value.
  unfoldable pub encode_frame : (print : V → List ℕ) → V → Result ChannelError (List ℕ)
  encode_frame print v =
      throw_if (ltb max_ipc_frame_bytes (length (print v))) frame_too_large
      >> ok (uint32_be (length (print v)) ++ print v)

  -- `new FrameChannel(socket, maxQueuedFrames)`; it throws where the limit is zero.
  unfoldable pub new_channel : ℕ → Option (FrameChannel V)
  new_channel zero = none
  new_channel (suc n) = some (record {
    buffer = [];
    queue = [];
    waiters = [];
    settled = [];
    failure = none;
    max_queued_frames = suc n;
    destroyed = false;
  })

  abbrev reject_with : ChannelError → ℕ → ℕ × Settled V
  reject_with e id = (id, rejected e)

  pub fail : ChannelError → FrameChannel V → FrameChannel V
  fail e c = elim c.failure [
    | some _ ↦ c
    | none ↦ record c {
      failure = some e;
      waiters = [];
      settled = c.settled ++ map (reject_with e) c.waiters;
    }
  ]

  -- `this.fail(e); this.socket.destroy();`
  pub fail_and_destroy : ChannelError → FrameChannel V → FrameChannel V
  fail_and_destroy e c = record (fail e c) { destroyed = true }

  unfoldable pub deliver : V → FrameChannel V → FrameChannel V
  deliver v c = elim c.waiters [
    | w ∷ ws ↦ record c { waiters = ws; settled = c.settled ++ (w, resolved v) ∷ [] }
    | [] ↦
        if ltb (length c.queue) c.max_queued_frames
        then record c { queue = c.queue ++ v ∷ [] }
        else fail_and_destroy queue_limit_exceeded c
  ]

  module _ (parse : List ℕ → Option V) where
    -- The loop of `accept`; each round takes at least four bytes off the buffer.
    unfoldable pub drain : (fuel : ℕ) → FrameChannel V → FrameChannel V
    drain zero c = c
    drain (suc fuel) c = elim (next_frame c.buffer) [
      | waiting ↦ c
      | too_large ↦ fail_and_destroy frame_too_large c
      | frame body rest ↦ elim (parse body) [
        | none ↦ fail_and_destroy invalid_json (record c { buffer = rest })
        | some v ↦ drain fuel (deliver v (record c { buffer = rest }))
      ]
    ]

    unfoldable pub accept : List ℕ → FrameChannel V → FrameChannel V
    accept chunk c = elim c.failure [
      | some _ ↦ c
      | none ↦
          if ltb max_ipc_buffer_bytes (length c.buffer + length chunk)
          then fail_and_destroy buffer_too_large c
          else drain (length (c.buffer ++ chunk)) (record c { buffer = c.buffer ++ chunk })
    ]

  -- The frame that is written to the socket.
  send : (print : V → List ℕ) → V → FrameChannel V → Result ChannelError (List ℕ)
  send print v c = elim c.failure [ some e ↦ err e | none ↦ encode_frame print v ]

  pub receive : (id : ℕ) → FrameChannel V → FrameChannel V
  receive id c = elim c.queue [
    | v ∷ q ↦ record c { queue = q; settled = c.settled ++ (id, resolved v) ∷ [] }
    | [] ↦ elim c.failure [
      | some e ↦ record c { settled = c.settled ++ (id, rejected e) ∷ [] }
      | none ↦ record c { waiters = c.waiters ++ id ∷ [] }
    ]
  ]

-- `waiters.indexOf(waiter) >= 0`
abbrev pub is_waiting : ℕ → List ℕ → Bool
is_waiting id [] = false
is_waiting id (w ∷ ws) = if w == id then true else is_waiting id ws

-- `waiters.splice(index, 1)`
abbrev pub without : ℕ → List ℕ → List ℕ
without id [] = []
without id (w ∷ ws) = let rest = without id ws in if w == id then ws else w ∷ rest

-- The timer of a `receive` goes off; it was cleared if the promise is settled.
pub time_out : {V : Type 0} → (id : ℕ) → FrameChannel V → FrameChannel V
time_out id c =
    if is_waiting id c.waiters
    then record c {
      waiters = without id c.waiters;
      settled = c.settled ++ (id, rejected receive_timed_out) ∷ [];
    }
    else c

-- What happens to a channel.
pub data Event : Type 0 where
  data_arrives : (chunk : List ℕ) → Event
  socket_fails socket_closes : Event
  receive_called timer_fires : (id : ℕ) → Event

pub handle : {V : Type 0} → (parse : List ℕ → Option V) → Event → FrameChannel V → FrameChannel V
handle parse (data_arrives chunk) c = accept parse chunk c
handle parse socket_fails c = fail socket_error c
handle parse socket_closes c = fail connection_closed c
handle parse (receive_called id) c = receive id c
handle parse (timer_fires id) c = time_out id c

pub run : {V : Type 0} → (parse : List ℕ → Option V) → List Event → FrameChannel V → FrameChannel V
run parse [] c = c
run parse (e ∷ es) c = run parse es (handle parse e c)
