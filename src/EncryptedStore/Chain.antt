-- ===== src/EncryptedStore/Chain.antt =====
-- What a walk over the rows shows of them (storage/encrypted-event-store.ts).
use vocation_os.Prelude.{
  ◌≡◌, refl, sym, ap, List, [], ◌∷◌, ◌++◌, String, suc, some, length, ok, ◌>>=◌, arith, eq_iff,
  Result-cases, Option-cases, inl, inr,
}
use vocation_os.Runtime.{Platform}
use vocation_os.Hash.{Json}
use vocation_os.EncryptedStore.{EventRow, StoredEvent, Vault, compute_event_hash}
use vocation_os.EncryptedStore.Read.{stored_event, opened_payload, check_rows, read_rows}
use vocation_os.EncryptedStore.Append.{last_hash}

module _ (p : Platform) (v : Vault) (key : String) where
  -- A row that the walk passes.
  pub record IsLink (previous : String) (r : EventRow) (payload : Json) : Type 0 where
    pub follows : r.content.previous_hash ≡ previous
    pub hashed : compute_event_hash p r.content ≡ r.event_hash
    pub opens : opened_payload p v key r.content ≡ some payload

  pub read_rows-link :
      (previous : String) (r : EventRow) (rs : List EventRow) (payload : Json)
      → IsLink previous r payload
      → read_rows p v key previous (r ∷ rs) ≡ (
          read_rows p v key r.event_hash rs >>= λ rest.
          ok (stored_event r payload ∷ rest.0, rest.1))
  unfolding read_rows
  read_rows-link previous r rs payload l =
      rw
        (
          (eq_iff r.content.previous_hash previous).1 l.follows,
          (eq_iff (compute_event_hash p r.content) r.event_hash).1 l.hashed,
          l.opens,
        )
        refl

  pub read_rows-split :
      (previous : String) (r : EventRow) (rs : List EventRow) (es : List StoredEvent) (h : String)
      → read_rows p v key previous (r ∷ rs) ≡ ok (es, h)
      → (payload : Json) × (fs : List StoredEvent) × IsLink previous r payload
        × (read_rows p v key r.event_hash rs ≡ ok (fs, h))
        × (es ≡ stored_event r payload ∷ fs)
  unfolding read_rows
  read_rows-split previous r rs es h walked =
      elim (Option-cases (opened_payload p v key r.content)) [
        | inl closed ↦ absurd (ground arith)
        | inr (payload, opens) ↦ elim (Result-cases (read_rows p v key r.event_hash rs)) [
          | inl (rest, read) ↦ (
            payload,
            rest.0,
            record {
              follows = ground (arith, eq_iff r.content.previous_hash previous);
              hashed = ground (arith, eq_iff (compute_event_hash p r.content) r.event_hash);
              opens = opens;
            },
            ground arith,
            ground arith,
          )
          | inr (why, failed) ↦ absurd (ground arith)
        ]
      ]

  pub read_rows-append :
      (previous : String) (rs : List EventRow) (r : EventRow) (payload : Json)
      (es : List StoredEvent) (h : String)
      → read_rows p v key previous rs ≡ ok (es, h)
      → IsLink h r payload
      → read_rows p v key previous (rs ++ r ∷ [])
        ≡ ok (es ++ stored_event r payload ∷ [], r.event_hash)
  unfolding read_rows
  read_rows-append previous [] r payload es h walked link =
      ground (arith, read_rows-link previous r [] payload)
  read_rows-append previous (x ∷ rs) r payload es h walked link =
      let (first, fs, link_x, rest, made) = read_rows-split previous x rs es h walked in
      rw
        (
          read_rows-link previous x (rs ++ r ∷ []) first link_x,
          read_rows-append x.event_hash rs r payload fs h rest link,
        )
        (ap (λ xs. ok (xs ++ stored_event r payload ∷ [], r.event_hash)) (sym made))

  pub read_rows-last_hash :
      (previous : String) (rs : List EventRow) (es : List StoredEvent) (h : String)
      → read_rows p v key previous rs ≡ ok (es, h)
      → (last_hash previous rs ≡ h) × (length es ≡ length rs)
  unfolding read_rows last_hash
  read_rows-last_hash previous [] es h walked = ground arith
  read_rows-last_hash previous (r ∷ rs) es h walked =
      let (first, fs, link, rest, made) = read_rows-split previous r rs es h walked in
      let (last, long) = read_rows-last_hash r.event_hash rs fs h rest in
      (last, rw made (ap suc long))

  -- Both loops refuse the same rows, for the same reasons.
  pub check_rows-read_rows :
      (previous : String) (rs : List EventRow)
      → check_rows p v key previous rs ≡ (read_rows p v key previous rs >>= λ walked. ok walked.1)
  unfolding read_rows check_rows
  check_rows-read_rows previous [] = refl
  check_rows-read_rows previous (r ∷ rs) = ground (arith, check_rows-read_rows r.event_hash rs)
