-- ===== src/Checkpoints/Create.antt =====
-- security/audit-checkpoint.ts: `createSignedCheckpoint`, with the keys in the credential store. What
-- was written before an error stays written, so the state comes back beside the error too.
use vocation_os.Prelude.{
  ℕ, Bool, false, ◌&&◌, ◌||◌, List, [], ◌∷◌, Option, none, some, String, ltb, leb, ◌==◌, ◌===◌,
  if◌then◌else◌, find, all, drop, length, ok, err, ◌>>=◌, ◌>>◌, guard, throw_if,
}
use vocation_os.Runtime.{Platform}
use vocation_os.Hash.{◌+++◌}
use vocation_os.Text.{codes, is_present, slice_start}
use vocation_os.EncryptedStore.{ChainHead, Database, Vault}
use vocation_os.EncryptedStore.Read.{chain_head, database_id}
use vocation_os.Checkpoints.{
  SignedCheckpointRecord, CheckpointRecordVerification, not_advanced, private_key_invalid,
  device_id_invalid, read_back_failed, schema_version_missing, Outcome, in_store, latest,
  checkpoint_genesis, signing_payload, checkpoint_digest, verify_checkpoint_chain,
}

-- The accounts of the credential store that are used here.
pub data Account : Type 0 where
  checkpoint_private_key latest_checkpoint_digest device_id : Account

-- The credential store, and the Ed25519 keys of node:crypto.
pub record Keychain : Type 1 where
  pub Keys : Type 0
  pub get : Keys → Account → Option String
  pub set : Keys → Account → String → Keys
  -- The public key of a private one, `none` where `createPrivateKey` throws.
  pub public_key : (private_key_pem : String) → Option String
  pub sign : (payload private_key_pem : String) → String

-- What one call takes from the clock, the random source and the generator of keys.
pub record Fresh : Type 0 where
  pub now : ℕ
  pub checkpoint_id : String
  pub device_uuid : String
  pub generated_key : String

-- `DEV-` and `[0-9a-f-]{36}`
abbrev is_device_code : ℕ → Bool
is_device_code c = leb 97 c && leb c 102 || leb 48 c && leb c 57 || c == 45

abbrev starts_dev : List ℕ → Bool
starts_dev (a ∷ b ∷ c ∷ d ∷ _) = a == 68 && b == 69 && c == 86 && d == 45
starts_dev _ = false

unfoldable pub is_device_id : String → Bool
is_device_id s =
    starts_dev (codes s) && all is_device_code (drop 4 (codes s)) && length (codes s) == 40

-- `ORDER BY event_count, created_at`; `text_lt` is the order of the texts of a column.
unfoldable pub insert_checkpoint :
    (text_lt : String → String → Bool)
    → SignedCheckpointRecord
    → List SignedCheckpointRecord
    → List SignedCheckpointRecord
insert_checkpoint text_lt c [] = c ∷ []
insert_checkpoint text_lt c (d ∷ ds) =
    let deeper = insert_checkpoint text_lt c ds in
    if ltb c.event_count d.event_count
      || c.event_count == d.event_count && text_lt c.created_at d.created_at
    then c ∷ d ∷ ds
    else d ∷ deeper

-- `previous && previous.eventCount === head.eventCount && previous.headHash === head.headHash`
abbrev pub is_same_head : Option SignedCheckpointRecord → ChainHead → Bool
is_same_head none head = false
is_same_head (some c) head = c.event_count == head.event_count && c.head_hash === head.head_hash

-- `previous ? checkpointDigest(previous) : CHECKPOINT_GENESIS`
abbrev pub previous_digest : Platform → Option SignedCheckpointRecord → String
previous_digest p none = checkpoint_genesis p
previous_digest p (some c) = checkpoint_digest p c

module _ (p : Platform) (v : Vault) (key : String) (text_lt : String → String → Bool)
    (kc : Keychain) where
  -- The database with its migrations, the checkpoints as they are listed, and the credential store.
  pub record AuditState : Type 0 where
    pub database : Database
    pub schema_version : ℕ
    pub checkpoints : List SignedCheckpointRecord
    pub keys : kc.Keys

  abbrev pub Exec : Type 0 → Type 0
  Exec A = Outcome A × AuditState

  -- What comes after a step that gave a value; an error ends the call.
  abbrev and_then : {A B : Type 0} → Exec A → (A → AuditState → Exec B) → Exec B
  and_then x next = elim x.0 [ ok a ↦ next a x.1 | err why ↦ (err why, x.1) ]

  abbrev with_keys : AuditState → kc.Keys → AuditState
  with_keys s keys = record s { keys = keys }

  abbrev is_text : Option String → String → Bool
  is_text none expected = false
  is_text (some found) expected = found === expected

  -- A new secret is written, and read again.
  abbrev stored_secret : Account → String → AuditState → Exec String
  stored_secret account secret s =
      let keys = kc.set s.keys account secret in
      (
        (guard (is_text (kc.get keys account) secret) read_back_failed >> ok secret),
        with_keys s keys,
      )

  abbrev existing_key : String → AuditState → Exec String
  existing_key pem s = elim (kc.public_key pem) [
    | none ↦ (err private_key_invalid, s)
    | some public_key_pem ↦ (ok pem, s)
  ]

  -- `loadOrCreatePrivateKey`; an empty text counts as no key.
  unfoldable pub load_or_create_private_key : Fresh → AuditState → Exec String
  load_or_create_private_key fresh s = elim (kc.get s.keys checkpoint_private_key) [
    | none ↦ stored_secret checkpoint_private_key fresh.generated_key s
    | some pem ↦
        if is_present (some pem)
        then existing_key pem s
        else stored_secret checkpoint_private_key fresh.generated_key s
  ]

  -- `loadOrCreateDeviceId`
  unfoldable pub load_or_create_device_id : Fresh → AuditState → Exec String
  load_or_create_device_id fresh s = elim (kc.get s.keys device_id) [
    | none ↦ stored_secret device_id ("DEV-" +++ fresh.device_uuid) s
    | some id ↦
        if is_present (some id)
        then (guard (is_device_id id) device_id_invalid >> ok id, s)
        else stored_secret device_id ("DEV-" +++ fresh.device_uuid) s
  ]

  -- `verifyCheckpointChain` of the state.
  abbrev pub chain_of : AuditState → Outcome CheckpointRecordVerification
  chain_of s =
      verify_checkpoint_chain p v key s.database s.checkpoints
        (kc.get s.keys latest_checkpoint_digest)

  -- What comes before the keys: a checkpoint that is there already, or the head to sign.
  unfoldable pub begin : Fresh → AuditState → Outcome (Option SignedCheckpointRecord × ChainHead)
  begin fresh s = do
    found ← chain_of s
    head ← in_store (chain_head p v key s.database)
    elim (find (λ c. c.checkpoint_id === fresh.checkpoint_id) s.checkpoints) [
      | some replay ↦ ok (some replay, head)
      | none ↦ do throw_if (is_same_head (latest s.checkpoints) head) not_advanced; ok (none, head)
    ]

  abbrev with_signature : String → SignedCheckpointRecord → SignedCheckpointRecord
  with_signature pem c = record c { signature = kc.sign (signing_payload p c) pem }

  -- The record that is signed, with its signature.
  unfoldable pub new_checkpoint :
      Fresh
      → AuditState
      → ChainHead
      → (database_id pem public_key_pem device : String) → SignedCheckpointRecord
  new_checkpoint fresh s head database_id pem public_key_pem device = with_signature pem (record {
    checkpoint_id = fresh.checkpoint_id;
    database_id = database_id;
    schema_version = s.schema_version;
    event_count = head.event_count;
    head_hash = head.head_hash;
    created_at = p.to_iso_string fresh.now;
    device_id = device;
    key_id = "KEY-" +++ slice_start 24 (p.digest_hex public_key_pem);
    previous_checkpoint_digest = previous_digest p (latest s.checkpoints);
    public_key_pem = public_key_pem;
    signature = "";
  })

  -- `saveSignedCheckpoint`, then the digest in the credential store.
  unfoldable pub saved : SignedCheckpointRecord → AuditState → AuditState
  saved c s = record s {
    checkpoints = insert_checkpoint text_lt c s.checkpoints;
    keys = kc.set s.keys latest_checkpoint_digest (checkpoint_digest p c);
  }

  -- Saving, and the check of the whole chain after it.
  unfoldable pub seal : SignedCheckpointRecord → AuditState → Exec SignedCheckpointRecord
  seal c s = (chain_of (saved c s) >>= λ found. ok c, saved c s)

  -- `createPublicKey(privateKeyPem)`
  unfoldable pub public_key_of : String → AuditState → Exec String
  public_key_of pem s = elim (kc.public_key pem) [
    | none ↦ (err private_key_invalid, s)
    | some public_key_pem ↦ (ok public_key_pem, s)
  ]

  -- `createSignedCheckpoint`
  unfoldable pub create_signed_checkpoint : Fresh → AuditState → Exec SignedCheckpointRecord
  create_signed_checkpoint fresh s =
      and_then (begin fresh s, s)
        λ (replay, head) s. elim replay [
          | some c ↦ (ok c, s)
          | none ↦ and_then (load_or_create_private_key fresh s) λ pem s.
              and_then (public_key_of pem s) λ public_key_pem s.
                and_then (in_store (database_id s.database), s)
                  λ id s. and_then (load_or_create_device_id fresh s) λ device s.
                    and_then (guard (leb 1 s.schema_version) schema_version_missing, s)
                      λ _ s. seal (new_checkpoint fresh s head id pem public_key_pem device) s
        ]
