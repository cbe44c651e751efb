-- ===== src/EncryptedStore/Restored.antt =====
-- A snapshot that is saved is the one that is loaded, and its version never falls
-- (storage/encrypted-event-store.ts).
use vocation_os.Prelude.{
  ◌≤◌, ◌≡◌, refl, ◌∙◌, true, false, List, [], ◌∷◌, some, String, find, ok, inl, inr, arith, eq_iff,
  eq_refl, Result-cases, Bool-cases,
}
use vocation_os.Runtime.{Platform}
use vocation_os.Hash.{Json, stringify}
use vocation_os.EncryptedStore.{SnapshotRow, StoredEvent, Database, Vault, opened}
use vocation_os.EncryptedStore.Read.{read_aggregate, read_all, chain_head}
use vocation_os.EncryptedStore.Appended.{Decrypts, opened-encrypt}
use vocation_os.EncryptedStore.Snapshots.{
  SnapshotInput, is_snapshot_of, upsert, is_rollback, snapshot_row, sealed_payload, aad_of,
  save_snapshot, open_snapshot, load_snapshot, stored_snapshot, has_checkpoint,
}

find-upsert :
    (r : SnapshotRow) (rs : List SnapshotRow)
    → find (is_snapshot_of r.aggregate_type r.aggregate_id) (upsert r rs) ≡ some r
unfolding upsert
find-upsert r [] = ground (arith, eq_refl r.aggregate_type, eq_refl r.aggregate_id)
find-upsert r (x ∷ xs) =
    ground (arith, eq_refl r.aggregate_type, eq_refl r.aggregate_id, find-upsert r xs)

-- What is found under another key, or under the key of a row whose version is not below it.
find-upsert-le :
    (r : SnapshotRow) (rs : List SnapshotRow) (aggregate_type aggregate_id : String)
    (old : SnapshotRow)
    → is_rollback (find (is_snapshot_of r.aggregate_type r.aggregate_id) rs) r.version ≡ false
    → find (is_snapshot_of aggregate_type aggregate_id) rs ≡ some old
    → (new : SnapshotRow) × (find (is_snapshot_of aggregate_type aggregate_id) (upsert r rs)
        ≡ some new)
      × (old.version ≤ new.version)
unfolding upsert
find-upsert-le r [] aggregate_type aggregate_id old fresh found = absurd (ground arith)
find-upsert-le r (x ∷ xs) aggregate_type aggregate_id old fresh found =
    elim (Bool-cases (is_snapshot_of r.aggregate_type r.aggregate_id x)) [
      | inl replaced ↦ elim (Bool-cases (is_snapshot_of aggregate_type aggregate_id x)) [
        | inl asked ↦ (
          r,
          ground (
            arith,
            eq_iff x.aggregate_type r.aggregate_type,
            eq_iff x.aggregate_id r.aggregate_id,
            eq_iff x.aggregate_type aggregate_type,
            eq_iff x.aggregate_id aggregate_id,
            eq_iff r.aggregate_type aggregate_type,
            eq_iff r.aggregate_id aggregate_id,
          ),
          ground (arith),
        )
        | inr other ↦ (
          old,
          ground (
            arith,
            eq_iff x.aggregate_type r.aggregate_type,
            eq_iff x.aggregate_id r.aggregate_id,
            eq_iff x.aggregate_type aggregate_type,
            eq_iff x.aggregate_id aggregate_id,
            eq_iff r.aggregate_type aggregate_type,
            eq_iff r.aggregate_id aggregate_id,
          ),
          ground arith,
        )
      ]
      | inr kept ↦ elim (Bool-cases (is_snapshot_of aggregate_type aggregate_id x)) [
        | inl asked ↦ (x, ground arith, ground arith)
        | inr other ↦
            let (new, there, above) =
              find-upsert-le r xs aggregate_type aggregate_id old (ground arith) (ground arith) in
            (new, ground arith, above)
      ]
    ]

module _ (p : Platform) (v : Vault) (key : String) where
  save_parts :
      (input : SnapshotInput) (nonce : String) (db t : Database)
      → save_snapshot p v key input nonce db ≡ ok t
      → (events : List StoredEvent) × (read_aggregate p v key db input.aggregate_type
            input.aggregate_id
          ≡ ok events)
        × (has_checkpoint events input.version input.last_event_hash ≡ true)
        × (is_rollback
              (find (is_snapshot_of input.aggregate_type input.aggregate_id) db.snapshots)
              input.version
            ≡ false)
        × (t ≡ record db { snapshots = upsert (snapshot_row p v key input nonce) db.snapshots })
  unfolding save_snapshot
  save_parts input nonce db t h =
      elim (Result-cases (read_aggregate p v key db input.aggregate_type input.aggregate_id)) [
        | inl (events, read) ↦ (events, read, ground arith, ground arith, ground arith)
        | inr (why, failed) ↦ absurd (ground arith)
      ]

-- Reading events does not depend on the snapshots.
reread :
    (p : Platform) (v : Vault) (key : String) (db : Database) (rows : List SnapshotRow)
    (aggregate_type aggregate_id : String)
    → read_aggregate p v key (record db { snapshots = rows }) aggregate_type aggregate_id
      ≡ read_aggregate p v key db aggregate_type aggregate_id
unfolding read_aggregate read_all chain_head
reread p v key db rows aggregate_type aggregate_id = refl

load_snapshot-found :
    (p : Platform) (v : Vault) (key : String) (db : Database) (aggregate_type aggregate_id : String)
    (r : SnapshotRow) (events : List StoredEvent) (payload : Json)
    → find (is_snapshot_of aggregate_type aggregate_id) db.snapshots ≡ some r
    → read_aggregate p v key db aggregate_type aggregate_id ≡ ok events
    → has_checkpoint events r.version r.last_event_hash ≡ true
    → opened v key (sealed_payload r) (aad_of p r) ≡ some payload
    → load_snapshot p v key db aggregate_type aggregate_id ≡ ok (some (stored_snapshot r payload))
unfolding load_snapshot open_snapshot
load_snapshot-found p v key db aggregate_type aggregate_id r events payload found read placed
      opens =
    rw (load_snapshot, found, open_snapshot, read, placed, opens) refl

-- A snapshot that is saved is loaded again: the same version, time and event, and the payload as
-- `JSON.parse` reads it, if decryption undoes encryption.
pub save-load_snapshot :
    (p : Platform) (v : Vault) (key : String) (input : SnapshotInput) (nonce : String)
    (db t : Database) (back : Json)
    → Decrypts v
    → v.parse_json (stringify p input.payload) ≡ some back
    → save_snapshot p v key input nonce db ≡ ok t
    → load_snapshot p v key t input.aggregate_type input.aggregate_id
      ≡ ok (some (stored_snapshot (snapshot_row p v key input nonce) back))
unfolding snapshot_row
save-load_snapshot p v key input nonce db t back decrypts parsed h =
    let (events, read, placed, _, t_is) = save_parts p v key input nonce db t h in
    let row : SnapshotRow = snapshot_row p v key input nonce in
    let opens : opened v key (sealed_payload row) (aad_of p row) ≡ some back =
      opened-encrypt p v key decrypts nonce (stringify p input.payload) (aad_of p row) back
        parsed in
    let again =
      reread p v key db (upsert row db.snapshots) input.aggregate_type input.aggregate_id ∙ read in
    rw t_is (
      load_snapshot-found p v key (record db { snapshots = upsert row db.snapshots })
        input.aggregate_type input.aggregate_id row events back (find-upsert row db.snapshots) again
        placed opens)

-- No saving makes the version of a stored snapshot fall, of this aggregate or of another.
pub save_snapshot-version :
    (p : Platform) (v : Vault) (key : String) (input : SnapshotInput) (nonce : String)
    (db t : Database) (aggregate_type aggregate_id : String) (old : SnapshotRow)
    → save_snapshot p v key input nonce db ≡ ok t
    → find (is_snapshot_of aggregate_type aggregate_id) db.snapshots ≡ some old
    → (new : SnapshotRow) × (find (is_snapshot_of aggregate_type aggregate_id) t.snapshots
        ≡ some new)
      × (old.version ≤ new.version)
unfolding snapshot_row
save_snapshot-version p v key input nonce db t aggregate_type aggregate_id old h found =
    let (_, _, _, ahead, t_is) = save_parts p v key input nonce db t h in
    let (new, there, above) =
      find-upsert-le (snapshot_row p v key input nonce) db.snapshots aggregate_type aggregate_id old
        ahead found in
    (new, rw t_is there, above)
