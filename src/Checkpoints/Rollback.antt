-- ===== src/Checkpoints/Rollback.antt =====
-- The digest that is kept outside the database pins the checkpoints (security/audit-checkpoint.ts).
use vocation_os.Prelude.{
  ℕ, ◌≤◌, ◌<◌, ◌≡◌, ◌≢◌, ◌⊎◌, inl, inr, refl, sym, ap, ap₂, ◌∙◌, Bool, true, false, ◌&&◌, List, [],
  ◌∷◌, Option, none, some, String, ok, length, arith, eq_iff, ==_iff, ◌===◌, ◌==◌, ltb, ltb→lt,
  Bool-cases, Option-cases, Result-cases,
}
use vocation_os.Runtime.{Platform}
use vocation_os.EncryptedStore.{ChainHead, Database, Vault}
use vocation_os.EncryptedStore.Read.{chain_head}
use vocation_os.Checkpoints.{
  SignedCheckpointRecord, CheckpointRecordVerification, checkpoint_genesis, checkpoint_digest,
  signing_payload, check_latest, latest, verify_from, latest_digest_of, verify_checkpoint_records,
  verify_checkpoint_chain, same_digest,
}

-- A digest that two records share, or that a record shares with the fixed text of the first one.
pub data Collision (p : Platform) : Type 0 where
  two_records :
      (c d : SignedCheckpointRecord)
      → c ≢ d
      → checkpoint_digest p c ≡ checkpoint_digest p d
      → Collision p
  genesis_record :
      (c : SignedCheckpointRecord) → checkpoint_digest p c ≡ checkpoint_genesis p → Collision p

same_record : SignedCheckpointRecord → SignedCheckpointRecord → Bool
same_record c d =
    c.checkpoint_id === d.checkpoint_id
    && c.database_id === d.database_id
    && c.head_hash === d.head_hash
    && c.created_at === d.created_at
    && c.device_id === d.device_id
    && c.key_id === d.key_id
    && c.previous_checkpoint_digest === d.previous_checkpoint_digest
    && c.public_key_pem === d.public_key_pem
    && c.signature === d.signature
    && c.schema_version == d.schema_version
    && c.event_count == d.event_count

same_record_eq : (c d : SignedCheckpointRecord) → same_record c d ≡ true → c ≡ d
unfolding same_record
same_record_eq c d h = ground (
  arith,
  eq_iff c.checkpoint_id d.checkpoint_id,
  eq_iff c.database_id d.database_id,
  eq_iff c.head_hash d.head_hash,
  eq_iff c.created_at d.created_at,
  eq_iff c.device_id d.device_id,
  eq_iff c.key_id d.key_id,
  eq_iff c.previous_checkpoint_digest d.previous_checkpoint_digest,
  eq_iff c.public_key_pem d.public_key_pem,
  eq_iff c.signature d.signature,
  ==_iff c.schema_version d.schema_version,
  ==_iff c.event_count d.event_count,
)

same_record_complete : (c d : SignedCheckpointRecord) → same_record c d ≡ false → c ≢ d
unfolding same_record
same_record_complete c d h e = ground (
  arith,
  eq_iff c.checkpoint_id d.checkpoint_id,
  eq_iff c.database_id d.database_id,
  eq_iff c.head_hash d.head_hash,
  eq_iff c.created_at d.created_at,
  eq_iff c.device_id d.device_id,
  eq_iff c.key_id d.key_id,
  eq_iff c.previous_checkpoint_digest d.previous_checkpoint_digest,
  eq_iff c.public_key_pem d.public_key_pem,
  eq_iff c.signature d.signature,
  ==_iff c.schema_version d.schema_version,
  ==_iff c.event_count d.event_count,
)

-- What a check of the records that succeeds has found.
pub records_parts :
    (p : Platform) (v : Vault) (key : String) (db : Database) (cs : List SignedCheckpointRecord)
    (r : CheckpointRecordVerification)
    → verify_checkpoint_records p v key db cs ≡ ok r
    → (digest : String) × (verify_from p (checkpoint_genesis p) 0 cs ≡ ok digest)
      × (r.latest_digest ≡ latest_digest_of p cs digest)
      × (head : ChainHead) × (chain_head p v key db ≡ ok head)
      × (check_latest p v key (latest cs) head db ≡ ok tt)
unfolding verify_checkpoint_records
records_parts p v key db cs r h = elim (Result-cases (verify_from p (checkpoint_genesis p) 0 cs)) [
  | inr (why, failed) ↦ absurd (ground arith)
  | inl (digest, walked) ↦ elim (Result-cases (chain_head p v key db)) [
    | inr (why, failed) ↦ absurd (ground arith)
    | inl (head, read) ↦ elim (Result-cases (check_latest p v key (latest cs) head db)) [
      | inr (why, failed) ↦ absurd (ground arith)
      | inl (_, fits) ↦ (digest, walked, ground arith, head, read, ground arith)
    ]
  ]
]

both_latest :
    (p : Platform) (cs ds : List SignedCheckpointRecord) (d e : String) (external : Option String)
    → same_digest external (latest_digest_of p cs d) ≡ true
    → same_digest external (latest_digest_of p ds e) ≡ true
    → ((cs ≡ []) × (ds ≡ [])) ⊎ (d ≡ e)
both_latest p [] [] d e external h k = inl (refl, refl)
both_latest p [] (y ∷ ds) d e none h k = absurd (ground arith)
both_latest p [] (y ∷ ds) d e (some x) h k = absurd (ground arith)
both_latest p (x ∷ cs) [] d e none h k = absurd (ground arith)
both_latest p (x ∷ cs) [] d e (some y) h k = absurd (ground arith)
both_latest p (x ∷ cs) (y ∷ ds) d e none h k = absurd (ground arith)
both_latest p (x ∷ cs) (y ∷ ds) d e (some z) h k = inr (ground (arith, eq_iff z d, eq_iff z e))

module _ (p : Platform) where
  one_digest :
      (c d : SignedCheckpointRecord)
      → checkpoint_digest p c ≡ checkpoint_digest p d
      → (c ≡ d) ⊎ Collision p
  one_digest c d e = elim (Bool-cases (same_record c d)) [
    | inl same ↦ inl (same_record_eq c d same)
    | inr other ↦ inr (two_records c d (same_record_complete c d other) e)
  ]

  pub verify_from-next :
      (previous : String) (n : ℕ) (c : SignedCheckpointRecord) (cs : List SignedCheckpointRecord)
      (digest : String)
      → verify_from p previous n (c ∷ cs) ≡ ok digest
      → (c.previous_checkpoint_digest ≡ previous)
        × (n ≤ c.event_count)
        × (verify_from p (checkpoint_digest p c) c.event_count cs ≡ ok digest)
  unfolding verify_from
  verify_from-next previous n c cs digest h =
      elim (Option-cases (p.verify (signing_payload p c) c.public_key_pem c.signature)) [
        | inl unreadable ↦ absurd (ground arith)
        | inr (valid, checked) ↦ (
          ground (arith, eq_iff c.previous_checkpoint_digest previous),
          ground arith,
          ground arith,
        )
      ]

  -- Two chains of one length that end in one digest are one chain.
  same_length :
      (previous previous' : String) (n n' : ℕ) (cs ds : List SignedCheckpointRecord)
      (digest : String)
      → length cs ≡ length ds
      → verify_from p previous n cs ≡ ok digest
      → verify_from p previous' n' ds ≡ ok digest
      → (previous ≡ previous') × (cs ≡ ds) ⊎ Collision p
  unfolding verify_from
  same_length previous previous' n n' [] [] digest long h k = inl (ground arith, refl)
  same_length previous previous' n n' [] (d ∷ ds) digest long h k = absurd (ground arith)
  same_length previous previous' n n' (c ∷ cs) [] digest long h k = absurd (ground arith)
  same_length previous previous' n n' (c ∷ cs) (d ∷ ds) digest long h k =
      let (follows, _, rest) = verify_from-next previous n c cs digest h in
      let (follows', _, rest') = verify_from-next previous' n' d ds digest k in
      elim (same_length (checkpoint_digest p c) (checkpoint_digest p d) c.event_count d.event_count
        cs ds digest (ground arith) rest rest') [
          | inr collision ↦ inr collision
          | inl (digests, same) ↦ elim (one_digest c d digests) [
            | inr collision ↦ inr collision
            | inl one ↦ inl (
              sym follows ∙ ap (λ x. x.previous_checkpoint_digest) one ∙ follows',
              ap₂ ◌∷◌ one same,
            )
          ]
        ]

  -- A longer chain that ends in the digest of one that starts at the beginning.
  longer :
      (previous : String) (n n' : ℕ) (cs ds : List SignedCheckpointRecord) (digest : String)
      → length ds < length cs
      → verify_from p previous n cs ≡ ok digest
      → verify_from p (checkpoint_genesis p) n' ds ≡ ok digest
      → Collision p
  longer previous n n' [] ds digest long h k = absurd (omega (arith, long))
  longer previous n n' (c ∷ cs) ds digest long h k =
      let (_, _, rest) = verify_from-next previous n c cs digest h in
      elim (Bool-cases (length ds == length cs)) [
        | inl equal ↦
            elim (same_length (checkpoint_digest p c) (checkpoint_genesis p) c.event_count n' cs ds
              digest (sym ((==_iff (length ds) (length cs)).0 equal)) rest k) [
                | inl (start, _) ↦ genesis_record c start
                | inr collision ↦ collision
              ]
        | inr unequal ↦
            longer (checkpoint_digest p c) c.event_count n' cs ds digest
              (ground (arith, ==_iff (length ds) (length cs))) rest k
      ]

  one_chain :
      (cs ds : List SignedCheckpointRecord) (digest : String)
      → verify_from p (checkpoint_genesis p) 0 cs ≡ ok digest
      → verify_from p (checkpoint_genesis p) 0 ds ≡ ok digest
      → (cs ≡ ds) ⊎ Collision p
  one_chain cs ds digest h k = elim (Bool-cases (ltb (length ds) (length cs))) [
    | inl more ↦
        inr
          (longer (checkpoint_genesis p) 0 0 cs ds digest (ltb→lt (length ds) (length cs) more) h k)
    | inr no_more ↦ elim (Bool-cases (ltb (length cs) (length ds))) [
      | inl fewer ↦ inr (
          longer (checkpoint_genesis p) 0 0 ds cs digest (ltb→lt (length cs) (length ds) fewer) k h)
      | inr no_fewer ↦
          elim (same_length (checkpoint_genesis p) (checkpoint_genesis p) 0 0 cs ds digest
            (ground arith) h k) [ inl (_, same) ↦ inl same | inr collision ↦ inr collision ]
    ]
  ]

  chain_parts :
      (v : Vault) (key : String) (db : Database) (cs : List SignedCheckpointRecord)
      (external : Option String) (r : CheckpointRecordVerification)
      → verify_checkpoint_chain p v key db cs external ≡ ok r
      → (digest : String) × (verify_from p (checkpoint_genesis p) 0 cs ≡ ok digest)
        × (same_digest external (latest_digest_of p cs digest) ≡ true)
  unfolding verify_checkpoint_chain
  chain_parts v key db cs external r h =
      elim (Result-cases (verify_checkpoint_records p v key db cs)) [
        | inr (why, failed) ↦ absurd (ground arith)
        | inl (found, e) ↦
            let (digest, walked, shown, _, _, _) = records_parts p v key db cs found e in
            (digest, walked, ground (arith, shown))
      ]

-- Two runs of `verifyCheckpointChain` that succeed with one digest in the credential store saw the
-- same checkpoints, on whatever databases: or a digest is there that two different records share,
-- or that a record shares with the text that starts the chain.
pub verify_checkpoint_chain-one_chain :
    (p : Platform) (v : Vault) (key : String) (db db' : Database)
    (cs ds : List SignedCheckpointRecord) (external : Option String)
    (r r' : CheckpointRecordVerification)
    → verify_checkpoint_chain p v key db cs external ≡ ok r
    → verify_checkpoint_chain p v key db' ds external ≡ ok r'
    → (cs ≡ ds) ⊎ Collision p
verify_checkpoint_chain-one_chain p v key db db' cs ds external r r' h h' =
    let (digest, walked, shown) = chain_parts p v key db cs external r h in
    let (digest', walked', shown') = chain_parts p v key db' ds external r' h' in
    elim (both_latest p cs ds digest digest' external shown shown') [
      | inl (none_left, none_right) ↦ inl (none_left ∙ sym none_right)
      | inr same ↦ one_chain p cs ds digest walked (rw same walked')
    ]
