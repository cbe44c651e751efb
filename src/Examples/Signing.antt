-- ===== src/Examples/Signing.antt =====
-- A second checkpoint of the example store is created and verified.
use vocation_os.Prelude.{
  ◌+◌, ◌≡◌, ◌≢◌, refl, ap, Bool, true, false, [], ◌∷◌, Option, some, String, ok, eq_refl, arith,
}
use vocation_os.Hash.{◌+++◌, sha256, stringify, stable_stringify, quote}
use vocation_os.Text.{decimal}
use vocation_os.EncryptedStore.{
  ChainHead, decode_chain_head, encode_chain_head, compute_event_hash, event_aad, is_hash, opened,
}
use vocation_os.EncryptedStore.Read.{chain_head, is_database_id, database_id}
use vocation_os.EncryptedStore.Append.{new_content, last_hash, new_row, with_row}
use vocation_os.Checkpoints.{
  SignedCheckpointRecord, CheckpointRecordVerification, signing_payload, checkpoint_digest,
  verify_from, check_latest, verify_checkpoint_records, verify_checkpoint_chain,
}
use vocation_os.Checkpoints.Create.{
  Account, checkpoint_private_key, latest_checkpoint_digest, device_id, Keychain, Fresh,
  is_device_id, AuditState, chain_of, create_signed_checkpoint,
}
use vocation_os.Checkpoints.Created.{IsLawful, Secret, create_signed_checkpoint-verified}
use vocation_os.Examples.Vaults.{hashing_platform, vault, key, database_two, row_two}
use vocation_os.Examples.Audits.{first}

record Secrets : Type 0 where
  private_key : Option String
  digest : Option String
  device : Option String

abbrev get_secret : Secrets → Account → Option String
get_secret s checkpoint_private_key = s.private_key
get_secret s latest_checkpoint_digest = s.digest
get_secret s device_id = s.device

abbrev set_secret : Secrets → Account → String → Secrets
set_secret s checkpoint_private_key secret = record s { private_key = some secret }
set_secret s latest_checkpoint_digest secret = record s { digest = some secret }
set_secret s device_id secret = record s { device = some secret }

-- One key, whose public part is `PEM`.
abbrev keychain : Keychain
keychain = record {
  Keys = Secrets;
  get = get_secret;
  set = set_secret;
  public_key = λ pem. some "PEM";
  sign = λ payload pem. "PEM" +++ ":" +++ payload;
}

abbrev no_text_lt : String → String → Bool
no_text_lt s t = false

abbrev device : String
device = "DEV-00000000-0000-0000-0000-000000000002"

abbrev state : AuditState hashing_platform vault key no_text_lt keychain
state = record {
  database = database_two;
  schema_version = 2;
  checkpoints = first ∷ [];
  keys = record {
    private_key = some "SECRET";
    digest = some (checkpoint_digest hashing_platform first);
    device = some device;
  };
}

abbrev fresh : Fresh
fresh = record { now = 90; checkpoint_id = "CHK-9"; device_uuid = ""; generated_key = "" }

abbrev head : ChainHead
head = record { event_count = 2; head_hash = row_two.event_hash }

abbrev before : CheckpointRecordVerification
before = record {
  checkpoint_count = 1;
  latest_digest = some (checkpoint_digest hashing_platform first);
}

is_verified : chain_of hashing_platform vault key no_text_lt keychain state ≡ ok before
unfolding verify_checkpoint_chain verify_checkpoint_records verify_from check_latest signing_payload
    checkpoint_digest is_database_id database_id chain_head is_hash opened quote with_row
    decode_chain_head stringify stable_stringify encode_chain_head decimal new_row
    compute_event_hash sha256 new_content event_aad last_hash
is_verified = refl

head_read : chain_head hashing_platform vault key database_two ≡ ok head
unfolding chain_head is_hash opened quote with_row decode_chain_head stringify stable_stringify
    encode_chain_head decimal new_row compute_event_hash sha256 new_content event_aad last_hash
head_read = refl

is_named : database_id state.database ≡ ok "DB-00000000-0000-0000-0000-000000000001"
unfolding database_id is_database_id with_row
is_named = refl

is_device : is_device_id device ≡ true
unfolding is_device_id
is_device = refl

lawful : IsLawful keychain
lawful = record { reads_back = same; others_kept = other }
  where
    same :
        (keys : Secrets) (a : Account) (secret : String)
        → get_secret (set_secret keys a secret) a ≡ some secret
    same keys checkpoint_private_key secret = refl
    same keys latest_checkpoint_digest secret = refl
    same keys device_id secret = refl

    other :
        (keys : Secrets) (a b : Account) (secret : String)
        → a ≢ b
        → get_secret (set_secret keys a secret) b ≡ get_secret keys b
    other keys checkpoint_private_key checkpoint_private_key secret n = absurd (n refl)
    other keys checkpoint_private_key latest_checkpoint_digest secret n = refl
    other keys checkpoint_private_key device_id secret n = refl
    other keys latest_checkpoint_digest checkpoint_private_key secret n = refl
    other keys latest_checkpoint_digest latest_checkpoint_digest secret n = absurd (n refl)
    other keys latest_checkpoint_digest device_id secret n = refl
    other keys device_id checkpoint_private_key secret n = refl
    other keys device_id latest_checkpoint_digest secret n = refl
    other keys device_id device_id secret n = absurd (n refl)

create_signed_checkpoint-verified_example :
    (c : SignedCheckpointRecord) × (t : AuditState hashing_platform vault key no_text_lt keychain)
    × (create_signed_checkpoint hashing_platform vault key no_text_lt keychain fresh state
        ≡ (ok c, t))
    × (chain_of hashing_platform vault key no_text_lt keychain t
        ≡ ok (record {
          checkpoint_count = 1 + 1;
          latest_digest = some (checkpoint_digest hashing_platform c);
        }))
create_signed_checkpoint-verified_example =
    create_signed_checkpoint-verified hashing_platform vault key no_text_lt keychain fresh state
      before head "DB-00000000-0000-0000-0000-000000000001" "SECRET" "PEM" device is_verified
      head_read refl refl (Secret.stored refl refl) refl is_named (Secret.stored refl refl)
      is_device (omega arith) (λ payload. ap some (eq_refl ("PEM" +++ ":" +++ payload))) lawful
