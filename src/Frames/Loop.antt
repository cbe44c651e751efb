-- ===== src/Frames/Loop.antt =====
-- The loop of `accept` in a frame channel (ipc/protocol.ts): its rounds, and what they keep.
use vocation_os.Prelude.{
  ℕ, zero, suc, ◌+◌, ◌≤◌, ◌≡◌, ◌⊎◌, inl, inr, refl, true, false, List, [], ◌∷◌, ◌++◌, Option, none,
  some, arith, length, take, drop, length-append, Option-cases, Bool-cases, ltb,
}
use vocation_os.Frames.{
  max_ipc_frame_bytes, max_ipc_buffer_bytes, ChannelError, queue_limit_exceeded, frame_too_large,
  invalid_json, buffer_too_large, FrameChannel, fail, fail_and_destroy, deliver, Next, waiting,
  too_large, frame, next_frame, read_uint32_be, drain, accept,
}

length-drop {ℓ} : {A : Type ℓ} (n : ℕ) (xs : List A) → length (drop n xs) ≤ length xs
length-drop zero xs = omega arith
length-drop (suc n) [] = omega arith
length-drop (suc n) (x ∷ xs) = omega (arith, length-drop n xs)

pub Next-cases :
    (n : Next)
    → (n ≡ waiting)
      ⊎ ((n ≡ too_large) ⊎ ((body : List ℕ) × ((rest : List ℕ) × (n ≡ frame body rest))))
Next-cases waiting = inl refl
Next-cases too_large = inr (inl refl)
Next-cases (frame body rest) = inr (inr (body, (rest, refl)))

-- The first frame of a buffer: its length is in the header, it is all there, and it is taken off.
pub next_frame_lem :
    (b body rest : List ℕ)
    → next_frame b ≡ frame body rest
    → (len : ℕ) × (read_uint32_be b ≡ some len)
      × (len ≤ max_ipc_frame_bytes)
      × (len + 4 ≤ length b)
      × (body ≡ take len (drop 4 b))
      × (rest ≡ drop (len + 4) b)
unfolding next_frame
next_frame_lem b body rest h = elim (Option-cases (read_uint32_be b)) [
  | inl n ↦ absurd (ground arith)
  | inr (len, e) ↦ (len, e, ground arith, ground arith, ground arith, ground arith)
]

next_frame-bound : (b body rest : List ℕ) → next_frame b ≡ frame body rest → length rest ≤ length b
next_frame-bound b body rest h =
    let (len, _, _, _, _, e) = next_frame_lem b body rest h in rw e (length-drop (len + 4) b)

module _ {V : Type 0} where
  destroy-buffer :
      (e : ChannelError) (c : FrameChannel V) → (fail_and_destroy e c).buffer ≡ c.buffer
  unfolding fail_and_destroy fail
  destroy-buffer e c = ground arith

  pub deliver-buffer : (v : V) (c : FrameChannel V) → (deliver v c).buffer ≡ c.buffer
  unfolding deliver
  deliver-buffer v c = ground (arith, destroy-buffer queue_limit_exceeded c)

  module _ (parse : List ℕ → Option V) where
    -- The rounds of the loop.
    module _ (fuel : ℕ) (c : FrameChannel V) where
      pub drain-waiting : next_frame c.buffer ≡ waiting → drain parse (suc fuel) c ≡ c
      unfolding drain
      drain-waiting e = ground arith

      pub drain-too_large :
          next_frame c.buffer ≡ too_large
          → drain parse (suc fuel) c ≡ fail_and_destroy frame_too_large c
      unfolding drain
      drain-too_large e = ground arith

      module _ (body rest : List ℕ) (e : next_frame c.buffer ≡ frame body rest) where
        pub drain-invalid :
            parse body ≡ none
            → drain parse (suc fuel) c ≡ fail_and_destroy invalid_json (record c { buffer = rest })
        unfolding drain
        drain-invalid n = ground arith

        pub drain-frame :
            (v : V)
            → parse body ≡ some v
            → drain parse (suc fuel) c ≡ drain parse fuel (deliver v (record c { buffer = rest }))
        unfolding drain
        drain-frame v k = ground arith

    -- What every round of the loop keeps, the loop keeps.
    drain_keeps :
        (P : FrameChannel V → Type 0)
        → ((e : ChannelError) (c : FrameChannel V) → P c → P (fail_and_destroy e c))
        → ((v : V) (c : FrameChannel V) → P c → P (deliver v c))
        → ((rest : List ℕ) (c : FrameChannel V)
            → length rest ≤ length c.buffer
            → P c
            → P (record c { buffer = rest }))
        → (fuel : ℕ) (c : FrameChannel V) → P c
        → P (drain parse fuel c)
    unfolding drain
    drain_keeps P f d r zero c p = p
    drain_keeps P f d r (suc fuel) c p = elim (Next-cases (next_frame c.buffer)) [
      | inl e ↦ rw (drain-waiting fuel c e) p
      | inr (inl e) ↦ rw (drain-too_large fuel c e) (f frame_too_large c p)
      | inr (inr (body, (rest, e))) ↦
          let q = r rest c (next_frame-bound c.buffer body rest e) p in
          elim (Option-cases (parse body)) [
            | inl n ↦
                rw (drain-invalid fuel c body rest e n)
                  (f invalid_json (record c { buffer = rest }) q)
            | inr (v, k) ↦ rw (drain-frame fuel c body rest e v k) (
                drain_keeps P f d r fuel (deliver v (record c { buffer = rest }))
                  (d v (record c { buffer = rest }) q))
          ]
    ]

    pub accept-failed :
        (chunk : List ℕ) (c : FrameChannel V) (e : ChannelError)
        → c.failure ≡ some e
        → accept parse chunk c ≡ c
    unfolding accept
    accept-failed chunk c e h = ground arith

    pub accept-overflow :
        (chunk : List ℕ) (c : FrameChannel V)
        → c.failure ≡ none
        → ltb max_ipc_buffer_bytes (length c.buffer + length chunk) ≡ true
        → accept parse chunk c ≡ fail_and_destroy buffer_too_large c
    unfolding accept
    accept-overflow chunk c h k = ground arith

    pub accept-fits :
        (chunk : List ℕ) (c : FrameChannel V)
        → c.failure ≡ none
        → ltb max_ipc_buffer_bytes (length c.buffer + length chunk) ≡ false
        → accept parse chunk c
          ≡ drain parse (length (c.buffer ++ chunk)) (record c { buffer = c.buffer ++ chunk })
    unfolding accept
    accept-fits chunk c h k = ground arith

    pub accept_keeps :
        (P : FrameChannel V → Type 0)
        → ((e : ChannelError) (c : FrameChannel V) → P c → P (fail_and_destroy e c))
        → ((v : V) (c : FrameChannel V) → P c → P (deliver v c))
        → ((b : List ℕ) (c : FrameChannel V)
            → length b ≤ max_ipc_buffer_bytes
            → P c
            → P (record c { buffer = b }))
        → (chunk : List ℕ) (c : FrameChannel V) → P c
        → P (accept parse chunk c)
    accept_keeps P f d r chunk c p = elim (Option-cases c.failure) [
      | inr (e, h) ↦ rw (accept-failed chunk c e h) p
      | inl h ↦ elim (Bool-cases (ltb max_ipc_buffer_bytes (length c.buffer + length chunk))) [
        | inl k ↦ rw (accept-overflow chunk c h k) (f buffer_too_large c p)
        | inr k ↦
            let fits : length (c.buffer ++ chunk) ≤ max_ipc_buffer_bytes =
              ground (arith, length-append c.buffer chunk) in
            rw (accept-fits chunk c h k)
              (drain_keeps (λ x. P x × (length x.buffer ≤ max_ipc_buffer_bytes))
                (λ e x q. (f e x q.0, rw (destroy-buffer e x) q.1))
                (λ v x q. (d v x q.0, rw (deliver-buffer v x) q.1))
                (λ rest x le q. (r rest x (omega (arith, le, q.1)) q.0, omega (arith, le, q.1)))
                (length (c.buffer ++ chunk)) (record c { buffer = c.buffer ++ chunk })
                (r (c.buffer ++ chunk) c fits p, fits)).0
      ]
    ]
