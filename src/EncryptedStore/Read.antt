-- ===== src/EncryptedStore/Read.antt =====
-- storage/encrypted-event-store.ts: what opens and reads a store, and checks its chain on the way.
use vocation_os.Prelude.{
  ℕ, Bool, false, ◌&&◌, ◌||◌, not, List, [], ◌∷◌, Option, none, some, String, ◌==◌, ◌===◌, length,
  find, any, keep, ok, ◌>>=◌, ◌>>◌, guard, throw_if, or_throw, is_some, leb, all, drop,
}
use vocation_os.Runtime.{Platform}
use vocation_os.Hash.{Json}
use vocation_os.Text.{is_present, codes}
use vocation_os.EncryptedStore.{
  RowContent, EventRow, ChainHead, StoredEvent, Database, Vault, integrity_failed,
  metadata_incomplete, locked, head_missing, chain_broken, event_hash_invalid,
  payload_unauthenticated, history_mismatch, database_id_invalid, Outcome, assert_identifier,
  payload_of, key_check_aad, key_check_value, genesis_hash, event_aad, compute_event_hash,
  derive_key, opened, decode_chain_head,
}

abbrev pub stored_event : EventRow → Json → StoredEvent
stored_event r payload = record {
  sequence = r.sequence;
  event_id = r.content.event_id;
  aggregate_type = r.content.aggregate_type;
  aggregate_id = r.content.aggregate_id;
  event_type = r.content.event_type;
  schema_version = r.content.schema_version;
  occurred_at = r.content.occurred_at;
  previous_hash = r.content.previous_hash;
  event_hash = r.event_hash;
  payload = payload;
}

abbrev pub is_of_aggregate : String → String → StoredEvent → Bool
is_of_aggregate aggregate_type aggregate_id e =
    e.aggregate_type === aggregate_type && e.aggregate_id === aggregate_id

-- The head says what was counted and hashed.
abbrev pub matches_head : ChainHead → ℕ → String → Bool
matches_head head count last_hash = head.event_count == count && head.head_hash === last_hash

module _ (p : Platform) (v : Vault) (key : String) where
  unfoldable pub opened_payload : RowContent → Option Json
  opened_payload r = opened v key (payload_of r) (event_aad p r)

  -- The loop of `authenticateExistingStore` from an expected previous hash on.
  unfoldable pub check_rows : (previous : String) → List EventRow → Outcome String
  check_rows previous [] = ok previous
  check_rows previous (r ∷ rs) = do
    guard (r.content.previous_hash === previous) (chain_broken r.sequence)
    guard (compute_event_hash p r.content === r.event_hash) (event_hash_invalid r.sequence)
    guard (is_some (opened_payload r.content)) (payload_unauthenticated r.sequence)
    check_rows r.event_hash rs

  -- The loop of `readAll`: the events, and the hash of the last row.
  unfoldable pub read_rows :
      (previous : String) → List EventRow → Outcome (List StoredEvent × String)
  read_rows previous [] = ok ([], previous)
  read_rows previous (r ∷ rs) = do
    guard (r.content.previous_hash === previous) (chain_broken r.sequence)
    guard (compute_event_hash p r.content === r.event_hash) (event_hash_invalid r.sequence)
    payload ← or_throw (opened_payload r.content) (payload_unauthenticated r.sequence)
    rest ← read_rows r.event_hash rs
    ok (stored_event r payload ∷ rest.0, rest.1)

  unfoldable pub chain_head : Database → Outcome ChainHead
  chain_head db = do
    value ← or_throw db.event_chain_head head_missing
    decode_chain_head v key value

  unfoldable pub read_all : Database → Outcome (List StoredEvent)
  unfolding chain_head
  read_all db = do
    head ← chain_head db
    walked ← read_rows (genesis_hash p) db.events
    guard (matches_head head (length db.events) walked.1) history_mismatch
    ok walked.0

  unfoldable pub read_aggregate :
      Database → (aggregate_type aggregate_id : String) → Outcome (List StoredEvent)
  read_aggregate db aggregate_type aggregate_id = do
    events ← read_all db
    ok (keep (is_of_aggregate aggregate_type aggregate_id) events)

  read_event : Database → (event_id : String) → Outcome (Option StoredEvent)
  read_event db event_id = do
    assert_identifier event_id
    events ← read_all db
    ok (find (λ e. e.event_id === event_id) events)

  has_event : Database → (event_id : String) → Outcome Bool
  has_event db event_id = do
    assert_identifier event_id
    ok (any (λ r. r.content.event_id === event_id) db.events)

  pub verify_integrity : Database → Outcome (ℕ × ChainHead)
  verify_integrity db = do
    guard db.is_integral integrity_failed
    events ← read_all db
    head ← chain_head db
    ok (length events, head)

  -- `authenticateExistingStore`, once the key is there.
  unfoldable pub authenticate_history : Database → Outcome (Unit {0})
  unfolding chain_head
  authenticate_history db = do
    head ← chain_head db
    last_hash ← check_rows (genesis_hash p) db.events
    guard (matches_head head (length db.events) last_hash) history_mismatch

-- `[0-9a-f-]`
abbrev is_database_code : ℕ → Bool
is_database_code c = leb 97 c && leb c 102 || leb 48 c && leb c 57 || c == 45

abbrev starts_db : List ℕ → Bool
starts_db (a ∷ b ∷ c ∷ _) = a == 68 && b == 66 && c == 45
starts_db _ = false

-- `/^DB-[0-9a-f-]{36}$/`
unfoldable pub is_database_id : String → Bool
is_database_id s =
    starts_db (codes s) && all is_database_code (drop 3 (codes s)) && length (codes s) == 39

-- `databaseId`
unfoldable pub database_id : Database → Outcome String
database_id db = do
  id ← or_throw db.database_id database_id_invalid
  guard (is_database_id id) database_id_invalid
  ok id

module _ (p : Platform) (v : Vault) where
  abbrev is_key_check : Option String → Bool
  is_key_check none = false
  is_key_check (some text) = text === key_check_value

  -- `authenticateExistingStore`
  unfoldable pub authenticate_existing_store : Database → (passphrase : String) → Outcome String
  authenticate_existing_store db passphrase = do
    guard db.is_integral integrity_failed
    salt ← or_throw db.encryption_salt metadata_incomplete
    throw_if (not (is_present (some salt)) || not (is_present db.event_chain_head))
        metadata_incomplete
    key ← derive_key p v passphrase salt
    guard (is_key_check (v.decrypt key db.key_check key_check_aad)) locked
    authenticate_history p v key db
    ok key
