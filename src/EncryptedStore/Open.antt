-- ===== src/EncryptedStore/Open.antt =====
-- storage/encrypted-event-store.ts: `open`, but for the backup and the migration of an older file.
use vocation_os.Prelude.{leb, true, [], Option, none, some, String, ok, ◌>>=◌, ◌>>◌, guard}
use vocation_os.Runtime.{Platform}
use vocation_os.Hash.{◌+++◌}
use vocation_os.Text.{slice_start, slice_from, utf16_length}
use vocation_os.EncryptedStore.{
  Database, Vault, database_id_invalid, passphrase_too_short, Outcome, genesis_hash, key_check_aad,
  key_check_value, derive_key, encode_chain_head,
}
use vocation_os.EncryptedStore.Read.{is_database_id, authenticate_existing_store}

-- What the creation of a store takes from the random source.
pub record OpenFresh : Type 0 where
  pub salt : String
  pub check_nonce : String
  pub head_nonce : String
  pub uuid : String

abbrev dashed : String → String
dashed hex =
    "DB-"
    +++ slice_start 8 hex
    +++ "-"
    +++ slice_start 4 (slice_from 8 hex)
    +++ "-"
    +++ slice_start 4 (slice_from 12 hex)
    +++ "-"
    +++ slice_start 4 (slice_from 16 hex)
    +++ "-"
    +++ slice_from 20 hex

module _ (p : Platform) (v : Vault) where
  -- `databaseIdFromSalt`
  unfoldable pub database_id_from_salt : (salt : String) → String
  database_id_from_salt salt =
      dashed (slice_start 32 (p.digest_hex ("vocation-os:database-id:" +++ salt)))

  abbrev pub new_database : (key : String) → OpenFresh → Database
  new_database key fresh = record {
    events = [];
    next_sequence = 1;
    snapshots = [];
    legacy_import_receipts = [];
    authority_receipts = [];
    encryption_salt = some fresh.salt;
    key_check = v.encrypt key fresh.check_nonce key_check_value key_check_aad;
    event_chain_head = some (
        encode_chain_head p v key fresh.head_nonce
          (record { event_count = 0; head_hash = genesis_hash p }));
    database_id = some ("DB-" +++ fresh.uuid);
    is_integral = true;
  }

  -- `open` where there is no file yet: the key, and the tables as they are filled.
  unfoldable pub open_new : (passphrase : String) → OpenFresh → Outcome (String × Database)
  open_new passphrase fresh = do
    key ← derive_key p v passphrase fresh.salt
    ok (key, new_database key fresh)

  -- The id that the file has, or else one from its salt: a file without a salt is refused before.
  abbrev adopted : Option String → Option String → String
  adopted (some id) salt = id
  adopted none (some salt) = database_id_from_salt salt
  adopted none none = ""

  -- `open` of a file that is up to date: it is authenticated, and given an id if it has none.
  unfoldable pub open_existing : Database → (passphrase : String) → Outcome (String × Database)
  open_existing db passphrase = do
    guard (leb 12 (utf16_length passphrase)) passphrase_too_short
    key ← authenticate_existing_store p v db passphrase
    guard (is_database_id (adopted db.database_id db.encryption_salt)) database_id_invalid
    ok (key, record db { database_id = some (adopted db.database_id db.encryption_salt) })
