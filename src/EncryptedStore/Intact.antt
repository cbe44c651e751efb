-- ===== src/EncryptedStore/Intact.antt =====
-- A store that `readAll` accepts: its rows form a chain from the first hash on, and the head says
-- how many they are and which hash is the last (storage/encrypted-event-store.ts).
use vocation_os.Prelude.{
  ◌≡◌, refl, List, String, length, ok, ◌>>=◌, inl, inr, arith, eq_iff, eq_refl, ==_iff,
  Result-cases, Bool-cases,
}
use vocation_os.Runtime.{Platform}
use vocation_os.EncryptedStore.{ChainHead, StoredEvent, Database, Vault, genesis_hash}
use vocation_os.EncryptedStore.Read.{
  chain_head, read_rows, read_all, authenticate_history, matches_head,
}
use vocation_os.EncryptedStore.Chain.{check_rows-read_rows}

module _ (p : Platform) (v : Vault) (key : String) where
  pub record IsIntact (db : Database) (es : List StoredEvent) : Type 0 where
    pub head : ChainHead
    pub head_read : chain_head p v key db ≡ ok head
    pub walked : read_rows p v key (genesis_hash p) db.events ≡ ok (es, head.head_hash)
    pub counted : head.event_count ≡ length db.events

  pub read_all-IsIntact :
      (db : Database) (es : List StoredEvent) → read_all p v key db ≡ ok es → IsIntact db es
  unfolding read_all
  read_all-IsIntact db es h = elim (Result-cases (chain_head p v key db)) [
    | inr (why, failed) ↦ absurd (ground arith)
    | inl (head, head_read) ↦ elim (Result-cases (read_rows p v key (genesis_hash p) db.events)) [
      | inr (why, failed) ↦ absurd (ground arith)
      | inl ((fs, last), walked) ↦ elim (Bool-cases (matches_head head (length db.events) last)) [
        | inr differs ↦ absurd (ground arith)
        | inl fits ↦
            let same : last ≡ head.head_hash = ground (arith, eq_iff head.head_hash last) in
            let all : fs ≡ es = ground arith in
            record {
              head = head;
              head_read = head_read;
              walked = rw (← same, ← all) walked;
              counted = ground (arith, ==_iff head.event_count (length db.events));
            }
      ]
    ]
  ]

  pub IsIntact-read_all :
      (db : Database) (es : List StoredEvent) → IsIntact db es → read_all p v key db ≡ ok es
  unfolding read_all
  IsIntact-read_all db es i =
      rw
        (
          i.head_read,
          i.walked,
          (==_iff i.head.event_count (length db.events)).1 i.counted,
          eq_refl i.head.head_hash,
        )
        refl

  -- The check on a store that is opened finds what `readAll` finds: it passes exactly the stores that
  -- `readAll` reads, and refuses the others for the same reason.
  pub authenticate_history-read_all :
      (db : Database) → authenticate_history p v key db ≡ (read_all p v key db >>= λ _. ok tt)
  unfolding read_all authenticate_history
  authenticate_history-read_all db = elim (Result-cases (chain_head p v key db)) [
    | inr (why, failed) ↦ rw failed refl
    | inl (head, head_read) ↦ elim (Result-cases (read_rows p v key (genesis_hash p) db.events)) [
      | inr (why, failed) ↦
          rw (head_read, check_rows-read_rows p v key (genesis_hash p) db.events, failed) refl
      | inl (walked, w) ↦
          rw (head_read, check_rows-read_rows p v key (genesis_hash p) db.events, w) (ground arith)
    ]
  ]
