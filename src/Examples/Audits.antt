-- ===== src/Examples/Audits.antt =====
-- Two checkpoints of the example store.
use vocation_os.Prelude.{◌≤◌, ◌≡◌, ◌⊎◌, refl, [], ◌∷◌, All, Option, some, String, ok}
use vocation_os.Hash.{◌+++◌, sha256, stringify, stable_stringify, quote}
use vocation_os.Text.{decimal}
use vocation_os.EncryptedStore.{
  decode_chain_head, encode_chain_head, compute_event_hash, event_aad, is_hash, opened,
}
use vocation_os.EncryptedStore.Read.{chain_head, is_database_id, database_id}
use vocation_os.EncryptedStore.Append.{new_content, last_hash, new_row, with_row}
use vocation_os.Checkpoints.{
  SignedCheckpointRecord, CheckpointRecordVerification, checkpoint_genesis, signing_payload,
  checkpoint_digest, verify_from, check_latest, verify_checkpoint_records, verify_checkpoint_chain,
}
use vocation_os.Checkpoints.Rollback.{Collision, verify_checkpoint_chain-one_chain}
use vocation_os.Checkpoints.Covered.{verify_checkpoint_records-covered}
use vocation_os.Examples.Vaults.{
  hashing_platform, vault, key, database_two, row_one, row_two, event_one, event_two, two_read,
}

abbrev signed : SignedCheckpointRecord → SignedCheckpointRecord
signed c = record c { signature = c.public_key_pem +++ ":" +++ signing_payload hashing_platform c }

abbrev pub first : SignedCheckpointRecord
first = signed (record {
  checkpoint_id = "CHK-1";
  database_id = "DB-00000000-0000-0000-0000-000000000001";
  schema_version = 2;
  event_count = 1;
  head_hash = row_one.event_hash;
  created_at = "T11";
  device_id = "DEV-1";
  key_id = "KEY-1";
  previous_checkpoint_digest = checkpoint_genesis hashing_platform;
  public_key_pem = "PEM";
  signature = "";
})

abbrev second : SignedCheckpointRecord
second = signed (record first {
  checkpoint_id = "CHK-2";
  event_count = 2;
  head_hash = row_two.event_hash;
  created_at = "T21";
  previous_checkpoint_digest = checkpoint_digest hashing_platform first;
  signature = "";
})

abbrev external : Option String
external = some (checkpoint_digest hashing_platform second)

abbrev verified : CheckpointRecordVerification
verified = record { checkpoint_count = 2; latest_digest = external }

records_verified :
    verify_checkpoint_records hashing_platform vault key database_two (first ∷ second ∷ [])
    ≡ ok verified
unfolding verify_checkpoint_records verify_from check_latest signing_payload checkpoint_digest
    is_database_id database_id chain_head is_hash opened quote with_row decode_chain_head stringify
    stable_stringify encode_chain_head decimal new_row compute_event_hash sha256 new_content
    event_aad last_hash
records_verified = refl

chain_verified :
    verify_checkpoint_chain hashing_platform vault key database_two (first ∷ second ∷ []) external
    ≡ ok verified
unfolding verify_checkpoint_chain verify_checkpoint_records verify_from check_latest signing_payload
    checkpoint_digest is_database_id database_id chain_head is_hash opened quote with_row
    decode_chain_head stringify stable_stringify encode_chain_head decimal new_row
    compute_event_hash sha256 new_content event_aad last_hash
chain_verified = refl

verify_checkpoint_records-covered_example : All (λ c. c.event_count ≤ 2) (first ∷ second ∷ [])
verify_checkpoint_records-covered_example =
    verify_checkpoint_records-covered hashing_platform vault key database_two (first ∷ second ∷ [])
      verified (event_one ∷ event_two ∷ []) records_verified two_read

verify_checkpoint_chain-one_chain_example :
    (first ∷ second ∷ [] ≡ first ∷ second ∷ []) ⊎ Collision hashing_platform
verify_checkpoint_chain-one_chain_example =
    verify_checkpoint_chain-one_chain hashing_platform vault key database_two database_two
      (first ∷ second ∷ []) (first ∷ second ∷ []) external verified verified chain_verified
      chain_verified
