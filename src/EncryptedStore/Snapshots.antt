-- ===== src/EncryptedStore/Snapshots.antt =====
-- storage/encrypted-event-store.ts: snapshots of an aggregate, tied to one of its events.
use vocation_os.Prelude.{
  ℕ, ◌-◌, Bool, false, ◌&&◌, List, [], ◌∷◌, Option, none, some, String, ltb, ◌===◌, find, drop,
  if◌then◌else◌, ok, ◌>>=◌, ◌>>◌, guard, throw_if, or_throw,
}
use vocation_os.Runtime.{Platform}
use vocation_os.Hash.{Json, num, str, obj, end, field, is_defined, stringify}
use vocation_os.Text.{decimal}
use vocation_os.EncryptedStore.{
  SnapshotRow, EncryptedPayload, StoredEvent, Database, Vault, payload_undefined, snapshot_mismatch,
  snapshot_rollback, snapshot_unauthenticated, Outcome, assert_identifier, assert_schema_version,
  opened,
}
use vocation_os.EncryptedStore.Read.{read_aggregate}

pub record StoredSnapshot : Type 0 where
  pub aggregate_type : String
  pub aggregate_id : String
  pub version : ℕ
  pub created_at : String
  pub last_event_hash : String
  pub payload : Json

pub record SnapshotInput : Type 0 where
  pub aggregate_type : String
  pub aggregate_id : String
  pub version : ℕ
  pub last_event_hash : String
  pub payload : Json
  pub now : ℕ

abbrev pub is_snapshot_of : (aggregate_type aggregate_id : String) → SnapshotRow → Bool
is_snapshot_of aggregate_type aggregate_id r =
    r.aggregate_type === aggregate_type && r.aggregate_id === aggregate_id

abbrev pub first : {A : Type 0} → List A → Option A
first [] = none
first (x ∷ xs) = some x

-- `events[version - 1]` is the event with the hash; there is none at version 0.
abbrev pub has_checkpoint : List StoredEvent → ℕ → String → Bool
has_checkpoint events version hash = elim (first (drop (version - 1) events)) [
  | none ↦ false
  | some e ↦ ltb 0 version && e.event_hash === hash
]

-- `INSERT ... ON CONFLICT DO UPDATE` on the key of aggregate type and id.
unfoldable pub upsert : SnapshotRow → List SnapshotRow → List SnapshotRow
upsert r [] = r ∷ []
upsert r (x ∷ xs) =
    let rest = upsert r xs in
    if is_snapshot_of r.aggregate_type r.aggregate_id x then r ∷ xs else x ∷ rest

-- `existing && version < existing.version`
abbrev pub is_rollback : Option SnapshotRow → ℕ → Bool
is_rollback none version = false
is_rollback (some existing) version = ltb version existing.version

abbrev pub sealed_payload : SnapshotRow → EncryptedPayload
sealed_payload r = record {
  ciphertext = r.payload_ciphertext;
  nonce = r.payload_nonce;
  tag = r.payload_tag;
}

abbrev pub stored_snapshot : SnapshotRow → Json → StoredSnapshot
stored_snapshot r payload = record {
  aggregate_type = r.aggregate_type;
  aggregate_id = r.aggregate_id;
  version = r.version;
  created_at = r.created_at;
  last_event_hash = r.last_event_hash;
  payload = payload;
}

module _ (p : Platform) where
  unfoldable pub snapshot_aad :
      (aggregate_type aggregate_id : String) (version : ℕ) (last_event_hash : String) → String
  snapshot_aad aggregate_type aggregate_id version last_event_hash = stringify p (
      obj (
        field "aggregateType" (str aggregate_type) (
          field "aggregateId" (str aggregate_id) (
            field "version" (num (decimal version))
              (field "lastEventHash" (str last_event_hash) end)))))

  abbrev pub aad_of : SnapshotRow → String
  aad_of r = snapshot_aad r.aggregate_type r.aggregate_id r.version r.last_event_hash

  module _ (v : Vault) (key : String) where
    abbrev row_of : SnapshotInput → EncryptedPayload → SnapshotRow
    row_of input e = record {
      aggregate_type = input.aggregate_type;
      aggregate_id = input.aggregate_id;
      version = input.version;
      created_at = p.to_iso_string input.now;
      last_event_hash = input.last_event_hash;
      payload_ciphertext = e.ciphertext;
      payload_nonce = e.nonce;
      payload_tag = e.tag;
    }

    unfoldable pub snapshot_row : SnapshotInput → (nonce : String) → SnapshotRow
    snapshot_row input nonce = row_of input (
        v.encrypt key nonce (stringify p input.payload) (
          snapshot_aad input.aggregate_type input.aggregate_id input.version input.last_event_hash))

    unfoldable pub save_snapshot : SnapshotInput → (nonce : String) → Database → Outcome Database
    save_snapshot input nonce db = do
      assert_identifier input.aggregate_type
      assert_identifier input.aggregate_id
      assert_schema_version input.version
      events ← read_aggregate p v key db input.aggregate_type input.aggregate_id
      guard (has_checkpoint events input.version input.last_event_hash) snapshot_mismatch
      throw_if
          (is_rollback (find (is_snapshot_of input.aggregate_type input.aggregate_id) db.snapshots)
            input.version)
          snapshot_rollback
      guard (is_defined input.payload) payload_undefined
      ok (record db { snapshots = upsert (snapshot_row input nonce) db.snapshots })

    -- `loadSnapshot`, once there is a row.
    unfoldable pub open_snapshot :
        Database → (aggregate_type aggregate_id : String) → SnapshotRow → Outcome StoredSnapshot
    open_snapshot db aggregate_type aggregate_id r = do
      events ← read_aggregate p v key db aggregate_type aggregate_id
      guard (has_checkpoint events r.version r.last_event_hash) snapshot_mismatch
      payload ← or_throw (opened v key (sealed_payload r) (aad_of r)) snapshot_unauthenticated
      ok (stored_snapshot r payload)

    unfoldable pub load_snapshot :
        Database → (aggregate_type aggregate_id : String) → Outcome (Option StoredSnapshot)
    load_snapshot db aggregate_type aggregate_id =
        elim (find (is_snapshot_of aggregate_type aggregate_id) db.snapshots) [
          | none ↦ ok none
          | some r ↦
              open_snapshot db aggregate_type aggregate_id r >>= λ snapshot. ok (some snapshot)
        ]
