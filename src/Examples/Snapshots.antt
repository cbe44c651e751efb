-- ===== src/Examples/Snapshots.antt =====
-- Snapshots of the aggregate of the example store.
use vocation_os.Prelude.{◌≡◌, refl, [], ◌∷◌, some, ok}
use vocation_os.Hash.{sha256, stringify, stable_stringify, quote}
use vocation_os.Text.{decimal}
use vocation_os.EncryptedStore.{
  SnapshotRow, Database, assert_identifier, assert_schema_version, decode_chain_head,
  encode_chain_head, compute_event_hash, event_aad, is_hash, opened,
}
use vocation_os.EncryptedStore.Read.{
  read_rows, opened_payload, read_all, chain_head, read_aggregate,
}
use vocation_os.EncryptedStore.Append.{new_content, last_hash, new_row, with_row}
use vocation_os.EncryptedStore.Snapshots.{
  SnapshotInput, upsert, snapshot_aad, snapshot_row, save_snapshot, load_snapshot, stored_snapshot,
}
use vocation_os.EncryptedStore.Restored.{save-load_snapshot}
use vocation_os.Examples.Vaults.{
  hashing_platform, vault, key, vault-Decrypts, database_two, row_one, row_two, input_one,
}

-- The state after the first event, and after the second.
abbrev early : SnapshotInput
early = record {
  aggregate_type = "campaign";
  aggregate_id = "C1";
  version = 1;
  last_event_hash = row_one.event_hash;
  payload = input_one.payload;
  now = 30;
}

abbrev late : SnapshotInput
late = record early { version = 2; last_event_hash = row_two.event_hash; now = 40 }

abbrev early_row : SnapshotRow
early_row = snapshot_row hashing_platform vault key early "s1"

abbrev late_row : SnapshotRow
late_row = snapshot_row hashing_platform vault key late "s2"

abbrev with_early : Database
with_early = record database_two { snapshots = early_row ∷ [] }

abbrev with_late : Database
with_late = record database_two { snapshots = late_row ∷ [] }

late_saved : save_snapshot hashing_platform vault key late "s2" with_early ≡ ok with_late
unfolding save_snapshot read_aggregate read_all chain_head read_rows opened_payload
    assert_identifier assert_schema_version upsert snapshot_aad snapshot_row opened is_hash quote
    with_row decode_chain_head stringify stable_stringify encode_chain_head decimal new_row
    compute_event_hash sha256 new_content event_aad last_hash
late_saved = refl

payload_parsed : vault.parse_json (stringify hashing_platform late.payload) ≡ some late.payload
unfolding quote with_row stringify stable_stringify encode_chain_head decimal new_row
    compute_event_hash sha256 new_content event_aad last_hash
payload_parsed = refl

save-load_snapshot_example :
    load_snapshot hashing_platform vault key with_late "campaign" "C1"
    ≡ ok (some (stored_snapshot late_row input_one.payload))
save-load_snapshot_example =
    save-load_snapshot hashing_platform vault key late "s2" with_early with_late input_one.payload
      vault-Decrypts payload_parsed late_saved
