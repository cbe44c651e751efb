-- ===== src/Frames/Chunks.antt =====
-- The round trip of frames (ipc/protocol.ts): what one side encodes, the other receives in order,
-- however the stream is cut into chunks.
use vocation_os.Prelude.{
  ℕ, zero, suc, ◌+◌, ◌≤◌, ◌≡◌, inl, inr, refl, sym, ◌∙◌, List, [], ◌∷◌, ◌++◌, Option, none, some,
  arith, length, length-append, append-eq-nil, Bool-cases, ltb, All, Result, ok, ◌>>=◌,
  Result-cases,
}
use mathlib.Core.List.{append_assoc, append-nil}
use vocation_os.Frames.{
  max_ipc_frame_bytes, ChannelError, FrameChannel, encode_frame, uint32_be, deliver, waiting, frame,
  next_frame, drain, accept,
}
use vocation_os.Frames.Loop.{deliver-buffer, drain-waiting, drain-frame, accept-fits}
use vocation_os.Frames.Bytes.{
  append_split, next_frame-whole, next_frame-part, waiting_bound, waiting_not_frame,
}
use vocation_os.Frames.Arrivals.{IsReady, arrived, deliver-IsReady, deliver-arrived}

-- The chunks that `data` events bring, one after the other, and their bytes.
pub accept_all :
    {V : Type 0} → (parse : List ℕ → Option V) → List (List ℕ) → FrameChannel V → FrameChannel V
accept_all parse [] c = c
accept_all parse (x ∷ xs) c = accept_all parse xs (accept parse x c)

unfoldable pub joined : List (List ℕ) → List ℕ
joined [] = []
joined (x ∷ xs) = x ++ joined xs

module _ {V : Type 0} where
  -- What is sent for a list of values, one frame after the other.
  unfoldable pub encode_all : (print : V → List ℕ) → List V → Result ChannelError (List ℕ)
  encode_all print [] = ok []
  encode_all print (v ∷ vs) = do
    f ← encode_frame print v
    rest ← encode_all print vs
    ok (f ++ rest)

  encode_all_lem :
      (print : V → List ℕ) (v : V) (vs : List V) (bytes : List ℕ)
      → encode_all print (v ∷ vs) ≡ ok bytes
      → (rest : List ℕ) × (length (print v) ≤ max_ipc_frame_bytes)
        × (encode_all print vs ≡ ok rest)
        × (bytes ≡ (uint32_be (length (print v)) ++ print v) ++ rest)
  unfolding encode_all encode_frame
  encode_all_lem print v vs bytes h = elim (Result-cases (encode_all print vs)) [
    | inl (rest, e) ↦ (rest, ground arith, e, ground arith)
    | inr (x, e) ↦ absurd (ground arith)
  ]

  -- A ready channel that is still to take in the frames of `vs`: their bytes are what it has
  -- buffered, and then `rest`.
  record IsPending (print : V → List ℕ) (vs : List V) (rest : List ℕ) (c : FrameChannel V)
      : Type 0 where
    pub ready : IsReady (length vs) c
    pub bytes : encode_all print vs ≡ ok (c.buffer ++ rest)

  -- Some of the values have been taken in, in their order, and no whole frame is left.
  record IsDrained (print : V → List ℕ) (vs : List V) (rest : List ℕ) (c d : FrameChannel V)
      : Type 0 where
    pub left : List V
    pub order : arrived d ++ left ≡ arrived c ++ vs
    pub pending : IsPending print left rest d
    pub short : next_frame d.buffer ≡ waiting

  module _ (print : V → List ℕ) (parse : List ℕ → Option V)
      (round_trip : (v : V) → parse (print v) ≡ some v) where
    nothing_encoded : {bytes : List ℕ} → encode_all print [] ≡ ok bytes → bytes ≡ []
    unfolding encode_all
    nothing_encoded h = ground arith

    shorten :
        (body t b : List ℕ) (fuel : ℕ)
        → b ≡ (uint32_be (length body) ++ body) ++ t
        → length b ≤ suc fuel
        → length t ≤ fuel
    shorten body t b fuel e le = ground (arith, length-append body t)

    step_order :
        (vs : List V) (v : V) (c : FrameChannel V) (t : List ℕ)
        → IsReady (suc (length vs)) c
        → arrived (deliver v (record c { buffer = t })) ++ vs ≡ arrived c ++ v ∷ vs
    unfolding arrived
    step_order vs v c t r =
        rw
          (deliver-arrived (length vs) v (record c { buffer = t })
            (record { alive = r.alive; exclusive = r.exclusive; room = r.room }))
          (append_assoc (arrived c) (v ∷ []) vs)

    drain_idle :
        (fuel : ℕ) (c : FrameChannel V) → next_frame c.buffer ≡ waiting → drain parse fuel c ≡ c
    unfolding drain
    drain_idle zero c h = refl
    drain_idle (suc fuel) c h = drain-waiting parse fuel c h

    deliver-IsPending :
        (v : V) (vs : List V) (rest t : List ℕ) (c : FrameChannel V)
        → IsReady (suc (length vs)) c
        → encode_all print vs ≡ ok (t ++ rest)
        → IsPending print vs rest (deliver v (record c { buffer = t }))
    deliver-IsPending v vs rest t c r e =
        let b : FrameChannel V = record c { buffer = t } in
        record {
          ready =
              deliver-IsReady (length vs) v b
                (record { alive = r.alive; exclusive = r.exclusive; room = r.room });
          bytes = rw (deliver-buffer v b) e;
        }

    stays :
        (vs : List V) (rest : List ℕ) (fuel : ℕ) (c : FrameChannel V)
        → IsPending print vs rest c
        → next_frame c.buffer ≡ waiting
        → IsDrained print vs rest c (drain parse fuel c)
    stays vs rest fuel c p h =
        rw (drain_idle fuel c h) (record { left = vs; order = refl; pending = p; short = h })

    drain-IsDrained :
        (vs : List V) (rest : List ℕ) (fuel : ℕ) (c : FrameChannel V)
        → length c.buffer ≤ fuel
        → IsPending print vs rest c
        → IsDrained print vs rest c (drain parse fuel c)
    unfolding next_frame
    drain-IsDrained [] rest fuel c le p =
        let nothing : c.buffer ≡ [] = (append-eq-nil c.buffer rest (nothing_encoded p.bytes)).0 in
        stays [] rest fuel c p (rw nothing refl)
    drain-IsDrained (v ∷ vs) rest zero c le p =
        let (bytes, fits, more, cut) = encode_all_lem print v vs (c.buffer ++ rest) p.bytes in
        stays (v ∷ vs) rest zero c p
          (next_frame-part c.buffer rest (print v) bytes fits cut (omega (arith, le)))
    drain-IsDrained (v ∷ vs) rest (suc fuel) c le p =
        let (bytes, fits, more, cut) = encode_all_lem print v vs (c.buffer ++ rest) p.bytes in
        elim (Bool-cases (ltb (length c.buffer) (length (print v) + 4))) [
          | inl e ↦
              stays (v ∷ vs) rest (suc fuel) c p
                (next_frame-part c.buffer rest (print v) bytes fits cut (ground arith))
          | inr e ↦
              let (t, first, after) =
                append_split c.buffer rest (uint32_be (length (print v)) ++ print v) bytes cut
                  (ground arith) in
              let whole : next_frame c.buffer ≡ frame (print v) t =
                rw first (next_frame-whole (print v) t fits) in
              let remaining : encode_all print vs ≡ ok (t ++ rest) = rw after more in
              let b : FrameChannel V = record c { buffer = t } in
              let d : FrameChannel V = deliver v b in
              let shorter : length d.buffer ≤ fuel =
                rw (deliver-buffer v b) (shorten (print v) t c.buffer fuel first le) in
              let next : IsDrained print vs rest d (drain parse fuel d) =
                drain-IsDrained vs rest fuel d shorter
                  (deliver-IsPending v vs rest t c p.ready remaining) in
              rw (drain-frame parse fuel c (print v) t whole v (round_trip v)) (record {
                left = next.left;
                order = next.order ∙ (step_order vs v c t p.ready);
                pending = next.pending;
                short = next.short;
              })
        ]

    take_in :
        (vs : List V) (x rest : List ℕ) (c : FrameChannel V)
        → length x ≤ max_ipc_frame_bytes + 4
        → next_frame c.buffer ≡ waiting
        → IsPending print vs (x ++ rest) c
        → IsDrained print vs rest c (accept parse x c)
    unfolding arrived
    take_in vs x rest c small short p =
        let buffered : length c.buffer ≤ max_ipc_frame_bytes + 4 = waiting_bound c.buffer short in
        let b : FrameChannel V = record c { buffer = c.buffer ++ x } in
        let pending : IsPending print vs rest b = record {
          ready = record {
            alive = p.ready.alive;
            exclusive = p.ready.exclusive;
            room = p.ready.room;
          };
          bytes = rw (append_assoc c.buffer x rest) p.bytes;
        } in
        let d : IsDrained print vs rest b (drain parse (length (c.buffer ++ x)) b) =
          drain-IsDrained vs rest (length (c.buffer ++ x)) b (omega arith) pending in
        rw (accept-fits parse x c p.ready.alive (ground arith))
          (record { left = d.left; order = d.order; pending = d.pending; short = d.short })

    take_in_all :
        (vs : List V) (xs : List (List ℕ)) (c : FrameChannel V)
        → All (λ x. length x ≤ max_ipc_frame_bytes + 4) xs
        → next_frame c.buffer ≡ waiting
        → IsPending print vs (joined xs) c
        → IsDrained print vs [] c (accept_all parse xs c)
    unfolding joined accept_all
    take_in_all vs [] c small short p = record {
      left = vs;
      order = refl;
      pending = p;
      short = short;
    }
    take_in_all vs (x ∷ xs) c (x_small, small) short p =
        let d = take_in vs x (joined xs) c x_small short p in
        let r = take_in_all d.left xs (accept parse x c) small d.short d.pending in
        record { left = r.left; order = r.order ∙ d.order; pending = r.pending; short = r.short }

    nothing_left :
        (vs : List V) (c : FrameChannel V)
        → next_frame c.buffer ≡ waiting
        → encode_all print vs ≡ ok (c.buffer ++ [])
        → (vs ≡ []) × (c.buffer ≡ [])
    nothing_left [] c short e = (refl, (append-eq-nil c.buffer [] (nothing_encoded e)).0)
    nothing_left (v ∷ vs) c short e =
        let (bytes, fits, more, cut) = encode_all_lem print v vs (c.buffer ++ []) e in
        let all_there : c.buffer ≡ (uint32_be (length (print v)) ++ print v) ++ bytes =
          sym (append-nil c.buffer) ∙ cut in
        let whole : next_frame c.buffer ≡ frame (print v) bytes =
          rw all_there (next_frame-whole (print v) bytes fits) in
        absurd (waiting_not_frame (print v) bytes short whole)

    -- Whatever values one side encodes, the other side takes in, in their order and without failing,
    -- however the bytes are cut into chunks: this holds for a ready channel with an empty buffer that
    -- has room for the values, for chunks of at most the size of a frame, and where parsing undoes
    -- printing.
    pub encode_all-accept_all :
        (vs : List V) (chunks : List (List ℕ)) (c : FrameChannel V)
        → encode_all print vs ≡ ok (joined chunks)
        → All (λ x. length x ≤ max_ipc_frame_bytes + 4) chunks
        → IsReady (length vs) c
        → c.buffer ≡ []
        → (arrived (accept_all parse chunks c) ≡ arrived c ++ vs)
          × ((accept_all parse chunks c).failure ≡ none)
          × ((accept_all parse chunks c).buffer ≡ [])
    unfolding next_frame
    encode_all-accept_all vs chunks c sent small ready empty =
        let d =
          take_in_all vs chunks c small (ground arith)
            (record { ready = ready; bytes = rw empty sent }) in
        let (none_left, clear) =
          nothing_left d.left (accept_all parse chunks c) d.short d.pending.bytes in
        let order : arrived (accept_all parse chunks c) ++ [] ≡ arrived c ++ vs =
          rw⁻¹ none_left d.order in
        (
          sym (append-nil (arrived (accept_all parse chunks c))) ∙ order,
          d.pending.ready.alive,
          clear,
        )
