-- ===== src/EncryptedStore/Append.antt =====
-- storage/encrypted-event-store.ts: `append`, which reads the head first and then, in a transaction,
-- stands by it only if the rows are still those that it describes.
use vocation_os.Prelude.{
  ℕ, ◌+◌, Bool, not, ◌||◌, List, [], ◌∷◌, ◌++◌, Option, none, some, String, ◌===◌, length, any, ok,
  ◌>>=◌, ◌>>◌, guard,
}
use vocation_os.Runtime.{Platform}
use vocation_os.Hash.{Json, is_defined, stringify, ◌+++◌}
use vocation_os.EncryptedStore.{
  RowContent, EventRow, EncryptedPayload, ChainHead, StoredEvent, Database, Vault,
  payload_undefined, head_mismatch, constraint_violated, Outcome, assert_identifier,
  assert_schema_version, genesis_hash, event_aad, compute_event_hash, encode_chain_head,
}
use vocation_os.EncryptedStore.Read.{stored_event, chain_head, matches_head}

pub record AppendEventInput : Type 0 where
  pub event_id : Option String
  pub aggregate_type : String
  pub aggregate_id : String
  pub event_type : String
  pub schema_version : ℕ
  pub payload : Json
  pub occurred_at : Option ℕ

-- What one call takes from the clock and from the random source.
pub record Fresh : Type 0 where
  pub now : ℕ
  pub uuid : String
  pub payload_nonce : String
  pub head_nonce : String

-- `previous?.event_hash` of the last row
unfoldable pub last_hash : (previous : String) → List EventRow → String
last_hash previous [] = previous
last_hash previous (r ∷ rs) = last_hash r.event_hash rs

abbrev instant_or : Option ℕ → ℕ → ℕ
instant_or none now = now
instant_or (some t) now = t

abbrev text_or : Option String → String → String
text_or none fallback = fallback
text_or (some s) fallback = s

-- A row that SQLite takes: `event_id` and `event_hash` are declared UNIQUE.
abbrev is_unique : List EventRow → EventRow → Bool
is_unique rows r =
    not (any (λ x. x.content.event_id === r.content.event_id || x.event_hash === r.event_hash) rows)

module _ (p : Platform) (v : Vault) (key : String) where
  abbrev id_of : AppendEventInput → Fresh → String
  id_of input fresh = text_or input.event_id ("EVT-" +++ fresh.uuid)

  -- The columns of a new row, before the payload is encrypted.
  abbrev unsealed : AppendEventInput → Fresh → (previous : String) → RowContent
  unsealed input fresh previous = record {
    event_id = id_of input fresh;
    aggregate_type = input.aggregate_type;
    aggregate_id = input.aggregate_id;
    event_type = input.event_type;
    schema_version = input.schema_version;
    occurred_at = p.to_iso_string (instant_or input.occurred_at fresh.now);
    payload_ciphertext = "";
    payload_nonce = "";
    payload_tag = "";
    previous_hash = previous;
  }

  abbrev sealed_with : RowContent → EncryptedPayload → RowContent
  sealed_with r e = record r {
    payload_ciphertext = e.ciphertext;
    payload_nonce = e.nonce;
    payload_tag = e.tag;
  }

  -- `rowWithoutHash`
  unfoldable pub new_content : AppendEventInput → Fresh → (previous : String) → RowContent
  new_content input fresh previous =
      let r = unsealed input fresh previous in
      sealed_with r (v.encrypt key fresh.payload_nonce (stringify p input.payload) (event_aad p r))

  abbrev row_of : RowContent → (sequence : ℕ) → EventRow
  row_of content sequence = record {
    sequence = sequence;
    content = content;
    event_hash = compute_event_hash p content;
  }

  unfoldable pub new_row : AppendEventInput → Fresh → Database → EventRow
  new_row input fresh db =
      row_of (new_content input fresh (last_hash (genesis_hash p) db.events)) db.next_sequence

  -- The database with one row more and the head that counts it.
  unfoldable pub with_row : Database → EventRow → (head_nonce : String) → Database
  with_row db r head_nonce = record db {
    events = db.events ++ r ∷ [];
    next_sequence = db.next_sequence + 1;
    event_chain_head = some (
        encode_chain_head p v key head_nonce
          (record { event_count = length db.events + 1; head_hash = r.event_hash }));
  }

  -- The transaction of `append`, with the head that was read before it.
  unfoldable pub append_expecting :
      (expected : ChainHead)
      → AppendEventInput
      → Fresh
      → Database
      → Outcome (StoredEvent × Database)
  append_expecting expected input fresh db = do
    guard (matches_head expected (length db.events) (last_hash (genesis_hash p) db.events))
        head_mismatch
    guard (is_unique db.events (new_row input fresh db)) constraint_violated
    ok (
      stored_event (new_row input fresh db) input.payload,
      with_row db (new_row input fresh db) fresh.head_nonce,
    )

  -- What `append` checks of its arguments before it reads anything; `encrypt` throws on `undefined`.
  unfoldable pub check_input : AppendEventInput → Fresh → Outcome (Unit {0})
  check_input input fresh = do
    assert_identifier input.aggregate_type
    assert_identifier input.aggregate_id
    assert_identifier input.event_type
    assert_schema_version input.schema_version
    assert_identifier (id_of input fresh)
    guard (is_defined input.payload) payload_undefined

  unfoldable pub append : AppendEventInput → Fresh → Database → Outcome (StoredEvent × Database)
  append input fresh db = do
    check_input input fresh
    expected ← chain_head p v key db
    append_expecting expected input fresh db
