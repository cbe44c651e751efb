-- ===== src/Frames/Bytes.antt =====
-- The bytes of a frame (ipc/protocol.ts): a whole frame is taken off a buffer, a part of one waits.
use vocation_os.Prelude.{
  ℕ, suc, ◌+◌, ◌*◌, ◌/◌, ◌%◌, ◌≤◌, ◌<◌, ◌≡◌, inl, inr, refl, List, [], ◌∷◌, ◌++◌, none, arith,
  length, take, drop, length-append, Option-cases,
}
use vocation_os.Frames.{
  max_ipc_frame_bytes, uint32_be, read_uint32_be, Next, waiting, frame, next_frame,
}

uint32_round :
    (n : ℕ)
    → n ≤ max_ipc_frame_bytes
    → n / 16_777_216 % 256 * 16_777_216 + n / 65_536 % 256 * 65_536 + n / 256 % 256 * 256 + n % 256
      ≡ n
uint32_round n h = omega (arith, h)

take-append {ℓ} : {A : Type ℓ} (xs ys : List A) → take (length xs) (xs ++ ys) ≡ xs
take-append [] ys = refl
take-append (x ∷ xs) ys = rw (take-append xs ys) refl

drop-append {ℓ} : {A : Type ℓ} (xs ys : List A) → drop (length xs) (xs ++ ys) ≡ ys
drop-append [] ys = refl
drop-append (x ∷ xs) ys = drop-append xs ys

drop-four {ℓ} :
    {A : Type ℓ} (n : ℕ) (a b c d : A) (xs : List A) → drop (n + 4) (a ∷ b ∷ c ∷ d ∷ xs) ≡ drop n xs
drop-four n a b c d xs = let e : n + 4 ≡ suc (suc (suc (suc n))) = omega arith in rw e refl

-- A list that starts another one cut elsewhere.
pub append_split {ℓ} :
    {A : Type ℓ} (b rest xs ys : List A)
    → b ++ rest ≡ xs ++ ys
    → length xs ≤ length b
    → (t : List A) × (b ≡ xs ++ t) × (t ++ rest ≡ ys)
append_split b rest [] ys h le = (b, refl, h)
append_split [] rest (x ∷ xs) ys h le = absurd (omega (arith, le))
append_split (a ∷ b) rest (x ∷ xs) ys h le =
    let same : b ++ rest ≡ xs ++ ys = cc in
    let within : length xs ≤ length b = omega (arith, le) in
    let (t, e, f) = append_split b rest xs ys same within in (t, cc, f)

-- A whole frame is taken off, and less than a frame waits.
pub next_frame-whole :
    (body rest : List ℕ)
    → length body ≤ max_ipc_frame_bytes
    → next_frame ((uint32_be (length body) ++ body) ++ rest) ≡ frame body rest
unfolding next_frame
next_frame-whole body rest h = ground (
  arith,
  uint32_round (length body) h,
  take-append body rest,
  drop-append body rest,
  drop-four (length body) (length body / 16_777_216 % 256) (length body / 65_536 % 256)
      (length body / 256 % 256) (length body % 256) (body ++ rest),
  length-append body rest,
)

pub next_frame-part :
    (b rest body tail : List ℕ)
    → length body ≤ max_ipc_frame_bytes
    → b ++ rest ≡ (uint32_be (length body) ++ body) ++ tail
    → length b < length body + 4
    → next_frame b ≡ waiting
unfolding next_frame
next_frame-part [] rest body tail h e lt = refl
next_frame-part (w ∷ []) rest body tail h e lt = refl
next_frame-part (w ∷ x ∷ []) rest body tail h e lt = refl
next_frame-part (w ∷ x ∷ y ∷ []) rest body tail h e lt = refl
next_frame-part (w ∷ x ∷ y ∷ z ∷ b) rest body tail h e lt =
    let header : w * 16_777_216 + x * 65_536 + y * 256 + z ≡ length body =
      ground (arith, uint32_round (length body) h) in
    ground arith

headless : (b : List ℕ) → read_uint32_be b ≡ none → length b ≤ max_ipc_frame_bytes + 4
headless [] h = omega arith
headless (w ∷ []) h = omega arith
headless (w ∷ x ∷ []) h = omega arith
headless (w ∷ x ∷ y ∷ []) h = omega arith
headless (w ∷ x ∷ y ∷ z ∷ b) h = ground arith

-- A buffer without a whole frame is shorter than the largest frame.
pub waiting_bound : (b : List ℕ) → next_frame b ≡ waiting → length b ≤ max_ipc_frame_bytes + 4
unfolding next_frame
waiting_bound b h = elim (Option-cases (read_uint32_be b)) [
  | inl n ↦ headless b n
  | inr (len, e) ↦ ground arith
]

pub waiting_not_frame : {n : Next} (body rest : List ℕ) → n ≡ waiting → n ≡ frame body rest → ⊥
waiting_not_frame body rest h k = cc
