-- ===== src/Checkpoints/Created.antt =====
-- A checkpoint that can be created is created, and the chain is verified with it
-- (security/audit-checkpoint.ts).
use vocation_os.Prelude.{
  ◌≢◌, ◌+◌, ◌≤◌, ◌≡◌, refl, sym, ap, ◌∙◌, Bool, true, false, List, [], ◌∷◌, Option, none, some,
  String, find, ok, length, length-append, arith, eq_refl, ◌===◌, le→leb, Result-cases,
  Option-cases, inl, inr, ok_injective,
}
use vocation_os.Runtime.{Platform}
use vocation_os.EncryptedStore.{ChainHead, Database, Vault}
use vocation_os.EncryptedStore.Read.{chain_head, database_id}
use vocation_os.Checkpoints.{
  SignedCheckpointRecord, CheckpointRecordVerification, signing_payload, checkpoint_digest, latest,
  verify_checkpoint_records, verify_checkpoint_chain,
}
use vocation_os.Text.{is_present}
use vocation_os.Hash.{◌+++◌}
use vocation_os.Checkpoints.Rollback.{records_parts}
use vocation_os.Checkpoints.Create.{
  Account, checkpoint_private_key, latest_checkpoint_digest, device_id, Keychain, Fresh,
  is_device_id, is_same_head, AuditState, load_or_create_private_key, load_or_create_device_id,
  public_key_of, chain_of, begin, new_checkpoint, saved, seal, create_signed_checkpoint,
}
use vocation_os.Checkpoints.Longer.{insert-append, IsNext, latest_digest, beyond, records-append}

chain_records :
    (p : Platform) (v : Vault) (key : String) (db : Database) (cs : List SignedCheckpointRecord)
    (external : Option String) (r : CheckpointRecordVerification)
    → verify_checkpoint_chain p v key db cs external ≡ ok r
    → (found : CheckpointRecordVerification) × (verify_checkpoint_records p v key db cs ≡ ok found)
unfolding verify_checkpoint_chain
chain_records p v key db cs external r h =
    elim (Result-cases (verify_checkpoint_records p v key db cs)) [
      | inr (why, failed) ↦ absurd (ground arith)
      | inl (found, e) ↦ (found, e)
    ]

-- What the credential store does: a secret that was written is read again, and the other accounts keep
-- theirs.
pub record IsLawful (kc : Keychain) : Type 0 where
  pub reads_back :
      (keys : kc.Keys) (a : Account) (secret : String)
      → kc.get (kc.set keys a secret) a ≡ some secret
  pub others_kept :
      (keys : kc.Keys) (a b : Account) (secret : String)
      → a ≢ b
      → kc.get (kc.set keys a secret) b ≡ kc.get keys b

-- The secret of an account: the stored one, or a generated one where none is stored.
pub data Secret (kc : Keychain) (keys : kc.Keys) (a : Account) (generated : String)
    : String → Type 0 where
  stored :
      {text : String}
      → kc.get keys a ≡ some text
      → is_present (some text) ≡ true
      → Secret kc keys a generated text
  made : is_present (kc.get keys a) ≡ false → Secret kc keys a generated generated

Secret-transport :
    (kc : Keychain) (keys more : kc.Keys) (a : Account) (generated text : String)
    → kc.get more a ≡ kc.get keys a
    → Secret kc keys a generated text
    → Secret kc more a generated text
Secret-transport kc keys more a generated text e (Secret.stored kept present) =
    Secret.stored (e ∙ kept) present
Secret-transport kc keys more a generated text e (Secret.made absent) = Secret.made (rw e absent)

module _ (p : Platform) (v : Vault) (key : String) (text_lt : String → String → Bool)
    (kc : Keychain) where
  -- Shorthand for the state and the calls with these parameters.
  abbrev State : Type 0
  State = AuditState p v key text_lt kc

  begins :
      (fresh : Fresh) (s : State) (r : CheckpointRecordVerification) (head : ChainHead)
      → chain_of p v key text_lt kc s ≡ ok r
      → chain_head p v key s.database ≡ ok head
      → find (λ c. c.checkpoint_id === fresh.checkpoint_id) s.checkpoints ≡ none
      → is_same_head (latest s.checkpoints) head ≡ false
      → begin p v key text_lt kc fresh s ≡ ok (none, head)
  unfolding begin
  begins fresh s r head verified read unknown advanced = rw (verified, read, unknown, advanced) refl

  -- The private key is loaded or generated, and the device id is as before.
  has_key :
      IsLawful kc
      → (fresh : Fresh) (s : State) (pem public_key_pem : String)
      → Secret kc s.keys checkpoint_private_key fresh.generated_key pem
      → kc.public_key pem ≡ some public_key_pem
      → (keys : kc.Keys) × (load_or_create_private_key p v key text_lt kc fresh s
          ≡ (ok pem, record s { keys = keys }))
        × (kc.get keys device_id ≡ kc.get s.keys device_id)
  unfolding load_or_create_private_key
  has_key lawful fresh s pem public_key_pem (Secret.stored kept present) readable =
      (s.keys, ground (arith, kept, present, readable), refl)
  has_key lawful fresh s pem public_key_pem (Secret.made absent) readable =
      let generated = fresh.generated_key in
      let again = lawful.reads_back s.keys checkpoint_private_key generated in
      (
        kc.set s.keys checkpoint_private_key generated,
        elim (Option-cases (kc.get s.keys checkpoint_private_key)) [
          | inl none_kept ↦ ground (arith, none_kept, again, eq_refl generated)
          | inr (text, kept) ↦
              let empty : is_present (some text) ≡ false = sym (ap is_present kept) ∙ absent in
              ground (arith, kept, empty, again, eq_refl generated)
        ],
        lawful.others_kept s.keys checkpoint_private_key device_id generated (λ e. ground arith),
      )

  has_public_key :
      (s : State) (pem public_key_pem : String)
      → kc.public_key pem ≡ some public_key_pem
      → public_key_of p v key text_lt kc pem s ≡ (ok public_key_pem, s)
  unfolding public_key_of
  has_public_key s pem public_key_pem readable = ground (arith, readable)

  -- The device id is loaded or generated.
  has_device :
      IsLawful kc
      → (fresh : Fresh) (s : State) (device : String)
      → Secret kc s.keys device_id ("DEV-" +++ fresh.device_uuid) device
      → is_device_id device ≡ true
      → (keys : kc.Keys) × (load_or_create_device_id p v key text_lt kc fresh s
          ≡ (ok device, record s { keys = keys }))
  unfolding load_or_create_device_id
  has_device lawful fresh s device (Secret.stored kept present) valid =
      (s.keys, ground (arith, kept, present, valid))
  has_device lawful fresh s device (Secret.made absent) valid =
      let id = "DEV-" +++ fresh.device_uuid in
      let again = lawful.reads_back s.keys device_id id in
      (
        kc.set s.keys device_id id,
        elim (Option-cases (kc.get s.keys device_id)) [
          | inl none_kept ↦ ground (arith, none_kept, again, eq_refl id)
          | inr (text, kept) ↦
              let empty : is_present (some text) ≡ false = sym (ap is_present kept) ∙ absent in
              ground (arith, kept, empty, again, eq_refl id)
        ],
      )

  -- The chain of the state with a new checkpoint.
  chain_of-saved :
      (fresh : Fresh) (s : State) (found : CheckpointRecordVerification) (head : ChainHead)
      (id pem public_key_pem device : String)
      → verify_checkpoint_records p v key s.database s.checkpoints ≡ ok found
      → chain_head p v key s.database ≡ ok head
      → is_same_head (latest s.checkpoints) head ≡ false
      → database_id s.database ≡ ok id
      → ((payload : String) → p.verify payload public_key_pem (kc.sign payload pem) ≡ some true)
      → IsLawful kc
      → chain_of p v key text_lt kc (
          saved p v key text_lt kc
            (new_checkpoint p v key text_lt kc fresh s head id pem public_key_pem device)
            s)
        ≡ ok (record {
          checkpoint_count = length s.checkpoints + 1;
          latest_digest = some (
              checkpoint_digest p
                (new_checkpoint p v key text_lt kc fresh s head id pem public_key_pem device));
        })
  unfolding saved new_checkpoint verify_checkpoint_chain signing_payload
  chain_of-saved fresh s found head id pem public_key_pem device records read advanced named signs
        lawful =
      let c = new_checkpoint p v key text_lt kc fresh s head id pem public_key_pem device in
      let (digest, walked, _, head', read', fits) =
        records_parts p v key s.database s.checkpoints found records in
      let one : head' ≡ head = ok_injective (sym read' ∙ read) in
      let below =
        beyond p v key s.database s.checkpoints digest head walked (rw one at fits) advanced in
      let next : IsNext p digest c = record {
        follows = latest_digest p s.checkpoints digest walked;
        signed = signs (signing_payload p c);
      } in
      let whole =
        records-append p v key s.database s.checkpoints c digest head walked read named refl refl
          below next in
      rw
        (
          insert-append text_lt c s.checkpoints below,
          whole,
          lawful.reads_back s.keys latest_checkpoint_digest (checkpoint_digest p c),
          eq_refl (checkpoint_digest p c),
          length-append s.checkpoints (c ∷ []),
        )
        refl

-- A checkpoint can be created whenever the chain is verified, the head has moved on since the latest
-- one, the new id is free, the store has a database id and a schema version above zero, the private
-- key has a public one, and the device id is well formed; the key and the device id may be stored or
-- have to be generated. The call returns the new record, and the chain with it, one longer, is
-- verified against the digest that the credential store then holds. Signatures of the key are taken
-- to verify, and the credential store to give back what was written last to an account.
pub create_signed_checkpoint-verified :
    (p : Platform) (v : Vault) (key : String) (text_lt : String → String → Bool) (kc : Keychain)
    (fresh : Fresh) (s : AuditState p v key text_lt kc) (r : CheckpointRecordVerification)
    (head : ChainHead) (id pem public_key_pem device : String)
    → chain_of p v key text_lt kc s ≡ ok r
    → chain_head p v key s.database ≡ ok head
    → find (λ c. c.checkpoint_id === fresh.checkpoint_id) s.checkpoints ≡ none
    → is_same_head (latest s.checkpoints) head ≡ false
    → Secret kc s.keys checkpoint_private_key fresh.generated_key pem
    → kc.public_key pem ≡ some public_key_pem
    → database_id s.database ≡ ok id
    → Secret kc s.keys device_id ("DEV-" +++ fresh.device_uuid) device
    → is_device_id device ≡ true
    → 1 ≤ s.schema_version
    → ((payload : String) → p.verify payload public_key_pem (kc.sign payload pem) ≡ some true)
    → IsLawful kc
    → (c : SignedCheckpointRecord) × (t : AuditState p v key text_lt kc) × (create_signed_checkpoint
          p v key text_lt kc fresh s
        ≡ (ok c, t))
      × (chain_of p v key text_lt kc t
          ≡ ok (record {
            checkpoint_count = length s.checkpoints + 1;
            latest_digest = some (checkpoint_digest p c);
          }))
unfolding create_signed_checkpoint seal
create_signed_checkpoint-verified p v key text_lt kc fresh s r head id pem public_key_pem device
      verified read unknown advanced key_given readable named device_given valid migrated signs
      lawful =
    let (found, records) =
      chain_records p v key s.database s.checkpoints (kc.get s.keys latest_checkpoint_digest) r
        verified in
    let (keys, loaded, same) =
      has_key p v key text_lt kc lawful fresh s pem public_key_pem key_given readable in
    let s1 = record s { keys = keys } in
    let (more, named_device) =
      has_device p v key text_lt kc lawful fresh s1 device
        (Secret-transport kc s.keys keys device_id ("DEV-" +++ fresh.device_uuid) device same
          device_given)
        valid in
    let s2 = record s { keys = more } in
    let c = new_checkpoint p v key text_lt kc fresh s2 head id pem public_key_pem device in
    let t = saved p v key text_lt kc c s2 in
    let sound =
      chain_of-saved p v key text_lt kc fresh s2 found head id pem public_key_pem device records
        read advanced named signs lawful in
    (
      c,
      t,
      rw
          (
            begins p v key text_lt kc fresh s r head verified read unknown advanced,
            loaded,
            has_public_key p v key text_lt kc s1 pem public_key_pem readable,
            named,
            named_device,
            le→leb 1 s.schema_version migrated,
            sound,
          )
          refl,
      sound,
    )
