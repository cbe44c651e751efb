-- ===== src/Checkpoints.antt =====
-- security/audit-checkpoint.ts: signed checkpoints of the event chain, themselves chained by their
-- digests, with the last digest kept outside the database, in the credential store.
-- The checkpoints are in the order in which `listSignedCheckpoints` gives them.
pub mod Rollback
pub mod Covered
pub mod Create
pub mod Longer
pub mod Created
use vocation_os.Prelude.{
  ℕ, Bool, true, false, not, ◌&&◌, ◌||◌, List, [], ◌∷◌, Option, none, some, String, ltb, ◌==◌,
  ◌===◌, length, Result, ok, err, ◌>>=◌, ◌>>◌, guard, throw_if, or_throw,
}
use vocation_os.Runtime.{Platform}
use vocation_os.Hash.{num, str, obj, Fields, end, field, Json, sha256, stringify}
use vocation_os.Text.{decimal}
use vocation_os.EncryptedStore.{ChainHead, Database, StoreError, Vault}
use vocation_os.EncryptedStore.Read.{chain_head, database_id}

pub record SignedCheckpointRecord : Type 0 where
  pub checkpoint_id : String
  pub database_id : String
  pub schema_version : ℕ
  pub event_count : ℕ
  pub head_hash : String
  pub created_at : String
  pub device_id : String
  pub key_id : String
  pub previous_checkpoint_digest : String
  pub public_key_pem : String
  pub signature : String

pub record CheckpointRecordVerification : Type 0 where
  pub checkpoint_count : ℕ
  pub latest_digest : Option String

pub data CheckpointError : Type 0 where
  chain_broken count_regressed signature_invalid key_unreadable :
      (checkpoint_id : String) → CheckpointError
  store_failed : StoreError → CheckpointError
  latest_incompatible external_digest_mismatch not_advanced : CheckpointError
  private_key_invalid device_id_invalid read_back_failed schema_version_missing : CheckpointError

abbrev pub Outcome : Type 0 → Type 0
Outcome A = Result CheckpointError A

abbrev pub in_store : {A : Type 0} → Result StoreError A → Outcome A
in_store (ok a) = ok a
in_store (err why) = err (store_failed why)

-- The fields of a record, before those that are given.
abbrev unsigned_fields : SignedCheckpointRecord → Fields → Fields
unsigned_fields c rest = field "checkpointId" (str c.checkpoint_id) (
    field "databaseId" (str c.database_id) (
      field "schemaVersion" (num (decimal c.schema_version)) (
        field "eventCount" (num (decimal c.event_count)) (
          field "headHash" (str c.head_hash) (
            field "createdAt" (str c.created_at) (
              field "deviceId" (str c.device_id) (
                field "keyId" (str c.key_id) (
                  field "previousCheckpointDigest" (str c.previous_checkpoint_digest)
                    (field "publicKeyPem" (str c.public_key_pem) rest)))))))))

-- `checkpoints.at(-1)`
abbrev pub latest : List SignedCheckpointRecord → Option SignedCheckpointRecord
latest [] = none
latest (c ∷ []) = some c
latest (c ∷ d ∷ cs) = latest (d ∷ cs)

-- The records `latest.eventCount > head.eventCount || (=== && latest.headHash !== head.headHash)`
abbrev pub is_ahead : SignedCheckpointRecord → ChainHead → Bool
is_ahead c head =
    ltb head.event_count c.event_count
    || head.event_count == c.event_count && not (c.head_hash === head.head_hash)

-- `externalDigest !== records.latestDigest`, negated.
abbrev pub same_digest : Option String → Option String → Bool
same_digest none none = true
same_digest (some d) (some e) = d === e
same_digest _ _ = false

module _ (p : Platform) where
  abbrev pub checkpoint_genesis : String
  checkpoint_genesis = sha256 p "vocation-os:checkpoint-chain:v1"

  -- What is signed: the record without its signature.
  unfoldable pub signing_payload : SignedCheckpointRecord → String
  signing_payload c = stringify p (obj (unsigned_fields c end))

  unfoldable pub checkpoint_digest : SignedCheckpointRecord → String
  checkpoint_digest c =
      sha256 p (stringify p (obj (unsigned_fields c (field "signature" (str c.signature) end))))

  -- The loop of `verifyCheckpointRecords`; the digest of the last record. A count starts at -1 there
  -- and at 0 here, and no count is below either.
  unfoldable pub verify_from :
      (previous : String) → (event_count : ℕ) → List SignedCheckpointRecord → Outcome String
  verify_from previous event_count [] = ok previous
  verify_from previous event_count (c ∷ cs) = do
    guard (c.previous_checkpoint_digest === previous) (chain_broken c.checkpoint_id)
    throw_if (ltb c.event_count event_count) (count_regressed c.checkpoint_id)
    valid ←
        or_throw (p.verify (signing_payload c) c.public_key_pem c.signature)
          (key_unreadable c.checkpoint_id)
    guard valid (signature_invalid c.checkpoint_id)
    verify_from (checkpoint_digest c) c.event_count cs

  -- `checkpoints.length > 0 ? expectedPrevious : null`
  abbrev pub latest_digest_of : List SignedCheckpointRecord → String → Option String
  latest_digest_of [] digest = none
  latest_digest_of (c ∷ cs) digest = some digest

  module _ (v : Vault) (key : String) where
    unfoldable pub check_latest :
        Option SignedCheckpointRecord → ChainHead → Database → Outcome (Unit {0})
    check_latest none head db = ok tt
    check_latest (some c) head db = do
      id ← in_store (database_id db)
      throw_if (not (c.database_id === id) || is_ahead c head) latest_incompatible

    unfoldable pub verify_checkpoint_records :
        Database → List SignedCheckpointRecord → Outcome CheckpointRecordVerification
    unfolding check_latest
    verify_checkpoint_records db cs = do
      digest ← verify_from checkpoint_genesis 0 cs
      head ← in_store (chain_head p v key db)
      check_latest (latest cs) head db
      ok (record { checkpoint_count = length cs; latest_digest = latest_digest_of cs digest })

    -- `verifyCheckpointChain`; `external` is the digest in the credential store.
    unfoldable pub verify_checkpoint_chain :
        Database
        → List SignedCheckpointRecord
        → (external : Option String) → Outcome CheckpointRecordVerification
    verify_checkpoint_chain db cs external = do
      found ← verify_checkpoint_records db cs
      guard (same_digest external found.latest_digest) external_digest_mismatch
      ok found
