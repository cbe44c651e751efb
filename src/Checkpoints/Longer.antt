-- ===== src/Checkpoints/Longer.antt =====
-- A chain of checkpoints of security/audit-checkpoint.ts is verified with one more record.
use vocation_os.Prelude.{
  ℕ, ◌≤◌, ◌<◌, ◌≡◌, refl, sym, ◌∙◌, Bool, true, false, List, [], ◌∷◌, ◌++◌, some, String, All, ok,
  length, arith, eq_iff, eq_refl, Option-cases, Result-cases, inl, inr, ok_injective,
}
use vocation_os.Runtime.{Platform}
use vocation_os.EncryptedStore.{ChainHead, Database, Vault}
use vocation_os.EncryptedStore.Read.{chain_head, database_id}
use vocation_os.Checkpoints.{
  SignedCheckpointRecord, checkpoint_genesis, signing_payload, checkpoint_digest, latest, is_ahead,
  latest_digest_of, verify_from, check_latest, verify_checkpoint_records,
}
use vocation_os.Checkpoints.Rollback.{verify_from-next}
use vocation_os.Checkpoints.Covered.{counts_below_latest, latest-none}
use vocation_os.Checkpoints.Create.{insert_checkpoint, is_same_head, previous_digest}

latest-append :
    (cs : List SignedCheckpointRecord) (c : SignedCheckpointRecord) → latest (cs ++ c ∷ []) ≡ some c
latest-append [] c = refl
latest-append (d ∷ []) c = refl
latest-append (d ∷ e ∷ cs) c = latest-append (e ∷ cs) c

pub insert-append :
    (text_lt : String → String → Bool) (c : SignedCheckpointRecord)
    (cs : List SignedCheckpointRecord)
    → All (λ x. x.event_count < c.event_count) cs
    → insert_checkpoint text_lt c cs ≡ cs ++ c ∷ []
unfolding insert_checkpoint
insert-append text_lt c [] below = refl
insert-append text_lt c (d ∷ ds) (below, rest) =
    let deeper = insert-append text_lt c ds rest in ground (arith, below, deeper)

module _ (p : Platform) where
  -- A record that a chain can go on with.
  pub record IsNext (digest : String) (c : SignedCheckpointRecord) : Type 0 where
    pub follows : c.previous_checkpoint_digest ≡ digest
    pub signed : p.verify (signing_payload p c) c.public_key_pem c.signature ≡ some true

  verify_from-append :
      (previous : String) (n : ℕ) (cs : List SignedCheckpointRecord) (c : SignedCheckpointRecord)
      (digest : String)
      → verify_from p previous n cs ≡ ok digest
      → n ≤ c.event_count
      → All (λ x. x.event_count < c.event_count) cs
      → IsNext digest c
      → verify_from p previous n (cs ++ c ∷ []) ≡ ok (checkpoint_digest p c)
  unfolding verify_from
  verify_from-append previous n [] c digest h up below next =
      ground (arith, eq_iff c.previous_checkpoint_digest previous, next.follows, next.signed)
  verify_from-append previous n (x ∷ cs) c digest h up (first, below) next =
      let (_, _, rest) = verify_from-next p previous n x cs digest h in
      let more =
        verify_from-append (checkpoint_digest p x) x.event_count cs c digest rest
          (omega (arith, first)) below next in
      elim (Option-cases (p.verify (signing_payload p x) x.public_key_pem x.signature)) [
        | inl unreadable ↦ absurd (ground arith)
        | inr (valid, checked) ↦ ground (arith, more)
      ]

  verify_from-nil : (previous : String) (n : ℕ) → verify_from p previous n [] ≡ ok previous
  unfolding verify_from
  verify_from-nil previous n = refl

  nonempty_digest :
      (previous : String) (n : ℕ) (c : SignedCheckpointRecord) (cs : List SignedCheckpointRecord)
      (digest : String)
      → verify_from p previous n (c ∷ cs) ≡ ok digest
      → previous_digest p (latest (c ∷ cs)) ≡ digest
  nonempty_digest previous n c [] digest h =
      let (_, _, rest) = verify_from-next p previous n c [] digest h in
      ok_injective (sym (verify_from-nil (checkpoint_digest p c) c.event_count) ∙ rest)
  nonempty_digest previous n c (d ∷ cs) digest h =
      let (_, _, rest) = verify_from-next p previous n c (d ∷ cs) digest h in
      nonempty_digest (checkpoint_digest p c) c.event_count d cs digest rest

  -- The digest of the latest record is what a walk ends in.
  pub latest_digest :
      (cs : List SignedCheckpointRecord) (digest : String)
      → verify_from p (checkpoint_genesis p) 0 cs ≡ ok digest
      → previous_digest p (latest cs) ≡ digest
  latest_digest [] digest h = ok_injective (sym (verify_from-nil (checkpoint_genesis p) 0) ∙ h)
  latest_digest (c ∷ cs) digest h = nonempty_digest (checkpoint_genesis p) 0 c cs digest h

  latest_digest-append :
      (cs : List SignedCheckpointRecord) (c : SignedCheckpointRecord) (digest : String)
      → latest_digest_of p (cs ++ c ∷ []) digest ≡ some digest
  latest_digest-append [] c digest = refl
  latest_digest-append (x ∷ cs) c digest = refl

  All-below :
      (cs : List SignedCheckpointRecord) (n m : ℕ)
      → n < m
      → All (λ c. c.event_count ≤ n) cs
      → All (λ c. c.event_count < m) cs
  All-below [] n m h all = tt
  All-below (c ∷ cs) n m h (below, all) = (omega (arith, h, below), All-below cs n m h all)

  module _ (v : Vault) (key : String) where
    latest_below :
        (l : SignedCheckpointRecord) (head : ChainHead) (db : Database)
        → check_latest p v key (some l) head db ≡ ok tt
        → is_same_head (some l) head ≡ false
        → l.event_count < head.event_count
    unfolding check_latest
    latest_below l head db h other = elim (Result-cases (database_id db)) [
      | inr (why, failed) ↦ absurd (ground arith)
      | inl (id, e) ↦ ground arith
    ]

    -- A head that is not the one of the latest checkpoint is beyond all checkpoints.
    pub beyond :
        (db : Database) (cs : List SignedCheckpointRecord) (digest : String) (head : ChainHead)
        → verify_from p (checkpoint_genesis p) 0 cs ≡ ok digest
        → check_latest p v key (latest cs) head db ≡ ok tt
        → is_same_head (latest cs) head ≡ false
        → All (λ c. c.event_count < head.event_count) cs
    beyond db cs digest head walked fits advanced = elim (Option-cases (latest cs)) [
      | inl nothing ↦ rw (latest-none cs nothing) tt
      | inr (l, last) ↦
          let strictly : l.event_count < head.event_count =
            latest_below l head db (rw last at fits) (rw last at advanced) in
          All-below cs l.event_count head.event_count strictly
            (counts_below_latest p (checkpoint_genesis p) 0 cs digest l walked last)
    ]

    -- The records with one more are verified.
    pub records-append :
        (db : Database) (cs : List SignedCheckpointRecord) (c : SignedCheckpointRecord)
        (digest : String) (head : ChainHead)
        → verify_from p (checkpoint_genesis p) 0 cs ≡ ok digest
        → chain_head p v key db ≡ ok head
        → database_id db ≡ ok c.database_id
        → c.event_count ≡ head.event_count
        → c.head_hash ≡ head.head_hash
        → All (λ x. x.event_count < c.event_count) cs
        → IsNext digest c
        → verify_checkpoint_records p v key db (cs ++ c ∷ [])
          ≡ ok (record {
            checkpoint_count = length (cs ++ c ∷ []);
            latest_digest = some (checkpoint_digest p c);
          })
    unfolding verify_checkpoint_records check_latest
    records-append db cs c digest head walked read id count hash below next =
        let longer =
          verify_from-append (checkpoint_genesis p) 0 cs c digest walked (omega arith) below next in
        let fits : is_ahead c head ≡ false = ground (arith, eq_iff c.head_hash head.head_hash) in
        rw
          (
            longer,
            read,
            latest-append cs c,
            id,
            eq_refl c.database_id,
            fits,
            latest_digest-append cs c (checkpoint_digest p c),
          )
          refl
