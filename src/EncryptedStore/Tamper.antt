-- ===== src/EncryptedStore/Tamper.antt =====
-- The chain of hashes shows tampering (storage/encrypted-event-store.ts).
use vocation_os.Prelude.{
  ◌≡◌, ◌≢◌, ◌⊎◌, inl, inr, refl, sym, ap, ap₂, ◌∙◌, Bool, true, false, ◌&&◌, List, [], ◌∷◌, map,
  String, ok, length, arith, eq_iff, ==_iff, ◌===◌, ◌==◌, Bool-cases,
}
use vocation_os.Runtime.{Platform}
use vocation_os.EncryptedStore.{
  RowContent, EventRow, StoredEvent, Database, Vault, genesis_hash, compute_event_hash,
}
use vocation_os.EncryptedStore.Read.{read_all, chain_head, read_rows}
use vocation_os.EncryptedStore.Chain.{read_rows-split}
use vocation_os.EncryptedStore.Intact.{read_all-IsIntact}

-- Two rows that differ and have one hash.
pub record Collision (p : Platform) : Type 0 where
  pub one : RowContent
  pub other : RowContent
  pub differ : one ≢ other
  pub collide : compute_event_hash p one ≡ compute_event_hash p other

same_content : RowContent → RowContent → Bool
same_content r s =
    r.event_id === s.event_id
    && r.aggregate_type === s.aggregate_type
    && r.aggregate_id === s.aggregate_id
    && r.event_type === s.event_type
    && r.schema_version == s.schema_version
    && r.occurred_at === s.occurred_at
    && r.payload_ciphertext === s.payload_ciphertext
    && r.payload_nonce === s.payload_nonce
    && r.payload_tag === s.payload_tag
    && r.previous_hash === s.previous_hash

same_content_eq : (r s : RowContent) → same_content r s ≡ true → r ≡ s
unfolding same_content
same_content_eq r s h = ground (
  arith,
  eq_iff r.event_id s.event_id,
  eq_iff r.aggregate_type s.aggregate_type,
  eq_iff r.aggregate_id s.aggregate_id,
  eq_iff r.event_type s.event_type,
  eq_iff r.occurred_at s.occurred_at,
  eq_iff r.payload_ciphertext s.payload_ciphertext,
  eq_iff r.payload_nonce s.payload_nonce,
  eq_iff r.payload_tag s.payload_tag,
  eq_iff r.previous_hash s.previous_hash,
  ==_iff r.schema_version s.schema_version,
)

same_content_complete : (r s : RowContent) → same_content r s ≡ false → r ≢ s
unfolding same_content
same_content_complete r s h e = ground (
  arith,
  eq_iff r.event_id s.event_id,
  eq_iff r.aggregate_type s.aggregate_type,
  eq_iff r.aggregate_id s.aggregate_id,
  eq_iff r.event_type s.event_type,
  eq_iff r.occurred_at s.occurred_at,
  eq_iff r.payload_ciphertext s.payload_ciphertext,
  eq_iff r.payload_nonce s.payload_nonce,
  eq_iff r.payload_tag s.payload_tag,
  eq_iff r.previous_hash s.previous_hash,
  ==_iff r.schema_version s.schema_version,
)

module _ (p : Platform) (v : Vault) (key : String) where
  -- Walks of one length that end in one hash went over the same rows, from the same hash on.
  one_walk :
      (previous previous' : String) (rs ss : List EventRow) (es fs : List StoredEvent) (h : String)
      → read_rows p v key previous rs ≡ ok (es, h)
      → read_rows p v key previous' ss ≡ ok (fs, h)
      → length rs ≡ length ss
      → (previous ≡ previous') × (map (λ r. r.content) rs ≡ map (λ r. r.content) ss) ⊎ Collision p
  unfolding read_rows
  one_walk previous previous' [] [] es fs h w w' long = inl (ground arith, refl)
  one_walk previous previous' [] (s ∷ ss) es fs h w w' long = absurd (ground arith)
  one_walk previous previous' (r ∷ rs) [] es fs h w w' long = absurd (ground arith)
  one_walk previous previous' (r ∷ rs) (s ∷ ss) es fs h w w' long =
      let (_, es', link, rest, _) = read_rows-split p v key previous r rs es h w in
      let (_, fs', link', rest', _) = read_rows-split p v key previous' s ss fs h w' in
      elim (one_walk r.event_hash s.event_hash rs ss es' fs' h rest rest' (ground arith)) [
        | inr c ↦ inr c
        | inl (hash, same) ↦ elim (Bool-cases (same_content r.content s.content)) [
          | inl e ↦
              let whole = same_content_eq r.content s.content e in
              inl (
                sym link.follows ∙ ap (λ c. c.previous_hash) whole ∙ link'.follows,
                ap₂ ◌∷◌ whole same,
              )
          | inr n ↦ inr (record {
            one = r.content;
            other = s.content;
            differ = same_content_complete r.content s.content n;
            collide = link.hashed ∙ hash ∙ sym link'.hashed;
          })
        ]
      ]

-- Two stores that `readAll` accepts, and whose heads say the same, hold the same rows in the same
-- order, but for their sequence numbers: or two rows that differ and have one hash are there.
pub read_all-one_history :
    (p : Platform) (v : Vault) (key : String) (db db' : Database) (es es' : List StoredEvent)
    → read_all p v key db ≡ ok es
    → read_all p v key db' ≡ ok es'
    → chain_head p v key db ≡ chain_head p v key db'
    → (map (λ r. r.content) db.events ≡ map (λ r. r.content) db'.events) ⊎ Collision p
read_all-one_history p v key db db' es es' r r' same =
    let i = read_all-IsIntact p v key db es r in
    let j = read_all-IsIntact p v key db' es' r' in
    let one : i.head ≡ j.head = ground (arith, i.head_read, same, j.head_read) in
    elim (one_walk p v key (genesis_hash p) (genesis_hash p) db.events db'.events es es'
      i.head.head_hash i.walked (rw (one) j.walked)
      (sym i.counted ∙ ap (λ h. h.event_count) one ∙ j.counted)) [
        | inl (_, rows) ↦ inl rows
        | inr c ↦ inr c
      ]
