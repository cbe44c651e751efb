-- ===== src/Checkpoints/Covered.antt =====
-- Checkpoints never speak of more events than the store holds (security/audit-checkpoint.ts).
use vocation_os.Prelude.{
  ℕ, ◌≤◌, ◌≡◌, refl, sym, ap, ◌∙◌, ok_injective, List, [], ◌∷◌, none, some, String, All, ok, length,
  arith, Option-cases, Result-cases, inl, inr,
}
use vocation_os.Runtime.{Platform}
use vocation_os.EncryptedStore.{genesis_hash, ChainHead, Database, StoredEvent, Vault}
use vocation_os.EncryptedStore.Read.{read_all, database_id}
use vocation_os.EncryptedStore.Chain.{read_rows-last_hash}
use vocation_os.EncryptedStore.Intact.{read_all-IsIntact}
use vocation_os.Checkpoints.{
  SignedCheckpointRecord, CheckpointRecordVerification, checkpoint_genesis, checkpoint_digest,
  verify_from, latest, check_latest, verify_checkpoint_records,
}
use vocation_os.Checkpoints.Rollback.{verify_from-next, records_parts}

nonempty_latest :
    (c : SignedCheckpointRecord) (cs : List SignedCheckpointRecord) → ¬ (latest (c ∷ cs) ≡ none)
nonempty_latest c [] h = cc
nonempty_latest c (d ∷ cs) h = nonempty_latest d cs h

pub latest-none : (cs : List SignedCheckpointRecord) → latest cs ≡ none → cs ≡ []
latest-none [] h = refl
latest-none (c ∷ []) h = cc
latest-none (c ∷ d ∷ cs) h = absurd (nonempty_latest d cs h)

All-weaken :
    (cs : List SignedCheckpointRecord) (n m : ℕ)
    → n ≤ m
    → All (λ c. c.event_count ≤ n) cs
    → All (λ c. c.event_count ≤ m) cs
All-weaken [] n m h all = tt
All-weaken (c ∷ cs) n m h (below, all) = (omega (arith, h, below), All-weaken cs n m h all)

module _ (p : Platform) where
  -- The counts of a chain do not fall, so that the last one is the greatest.
  pub counts_below_latest :
      (previous : String) (n : ℕ) (cs : List SignedCheckpointRecord) (digest : String)
      (l : SignedCheckpointRecord)
      → verify_from p previous n cs ≡ ok digest
      → latest cs ≡ some l
      → All (λ c. c.event_count ≤ l.event_count) cs
  counts_below_latest previous n [] digest l h last = tt
  counts_below_latest previous n (c ∷ []) digest l h last = (ground arith, tt)
  counts_below_latest previous n (c ∷ d ∷ cs) digest l h last =
      let (_, _, rest) = verify_from-next p previous n c (d ∷ cs) digest h in
      let (_, up, _) = verify_from-next p (checkpoint_digest p c) c.event_count d cs digest rest in
      let (below, others) =
        counts_below_latest (checkpoint_digest p c) c.event_count (d ∷ cs) digest l rest last in
      (omega (arith, up, below), (below, others))

  module _ (v : Vault) (key : String) where
    pub latest_covered :
        (l : SignedCheckpointRecord) (head : ChainHead) (db : Database)
        → check_latest p v key (some l) head db ≡ ok tt
        → l.event_count ≤ head.event_count
    unfolding check_latest
    latest_covered l head db h = elim (Result-cases (database_id db)) [
      | inr (why, failed) ↦ absurd (ground arith)
      | inl (id, e) ↦ ground arith
    ]

-- If the checkpoint records are verified and the store can be read, no checkpoint counts more events
-- than are read.
pub verify_checkpoint_records-covered :
    (p : Platform) (v : Vault) (key : String) (db : Database) (cs : List SignedCheckpointRecord)
    (r : CheckpointRecordVerification) (es : List StoredEvent)
    → verify_checkpoint_records p v key db cs ≡ ok r
    → read_all p v key db ≡ ok es
    → All (λ c. c.event_count ≤ length es) cs
verify_checkpoint_records-covered p v key db cs r es h all =
    let (digest, walked, _, head, read, fits) = records_parts p v key db cs r h in
    let i = read_all-IsIntact p v key db es all in
    let (_, long) =
      read_rows-last_hash p v key (genesis_hash p) db.events es i.head.head_hash i.walked in
    let one : head ≡ i.head = ok_injective (sym read ∙ i.head_read) in
    let counted : head.event_count ≡ length es =
      ap (λ x. x.event_count) one ∙ i.counted ∙ sym long in
    elim (Option-cases (latest cs)) [
      | inl nothing ↦ rw (latest-none cs nothing) tt
      | inr (l, last) ↦
          let top = latest_covered p v key l head db (rw (← last) fits) in
          All-weaken cs l.event_count (length es) (rw (← counted) top)
            (counts_below_latest p (checkpoint_genesis p) 0 cs digest l walked last)
    ]
