-- ===== src/EncryptedStore.antt =====
-- storage/encrypted-event-store.ts: the events of the local store, each encrypted, chained by
-- hashes, with an encrypted head that says how many there are and what the last hash is.
-- The database is a record of its tables. The cipher, the key derivation and the JSON parser are
-- the runtime's. A cell is a text; `decimal` prints the whole numbers that are hashed.
pub mod Read
pub mod Append
pub mod Receipts
pub mod Open
pub mod Chain
pub mod Intact
pub mod Tamper
pub mod Appended
pub mod Snapshots
pub mod Restored
pub mod Reopened
use vocation_os.Prelude.{
  ℕ, Bool, true, false, ◌&&◌, ◌||◌, List, [], ◌∷◌, Option, none, some, String, ltb, leb, ◌==◌,
  ◌===◌, if◌then◌else◌, length, all, take, drop, Result, ok, err, ◌>>=◌, ◌>>◌, guard, or_throw,
}
use vocation_os.Runtime.{Platform}
use vocation_os.Hash.{Json, undefined, num, str, obj, Fields, end, field, sha256, stringify, ◌+++◌}
use vocation_os.Text.{codes, utf16_length, decimal, is_alphanumeric}

-- The columns of an event that its hash is taken of: all but `sequence` and `event_hash`.
pub record RowContent : Type 0 where
  pub event_id : String
  pub aggregate_type : String
  pub aggregate_id : String
  pub event_type : String
  pub schema_version : ℕ
  pub occurred_at : String
  pub payload_ciphertext : String
  pub payload_nonce : String
  pub payload_tag : String
  pub previous_hash : String

pub record EventRow : Type 0 where
  pub sequence : ℕ
  pub content : RowContent
  pub event_hash : String

pub record SnapshotRow : Type 0 where
  pub aggregate_type : String
  pub aggregate_id : String
  pub version : ℕ
  pub created_at : String
  pub last_event_hash : String
  pub payload_ciphertext : String
  pub payload_nonce : String
  pub payload_tag : String

pub record EncryptedPayload : Type 0 where
  pub ciphertext : String
  pub nonce : String
  pub tag : String

pub record ChainHead : Type 0 where
  pub event_count : ℕ
  pub head_hash : String

pub record StoredEvent : Type 0 where
  pub sequence : ℕ
  pub event_id : String
  pub aggregate_type : String
  pub aggregate_id : String
  pub event_type : String
  pub schema_version : ℕ
  pub occurred_at : String
  pub previous_hash : String
  pub event_hash : String
  pub payload : Json

pub record LegacyImportReceipt : Type 0 where
  pub source_digest : String
  pub source_kind : String
  pub source_locator_hash : String
  pub event_id : String
  pub imported_at : String

pub record AuthorityReceipt : Type 0 where
  pub request_id : String
  pub request_hash : String
  pub operation : String
  pub event_id : Option String
  pub response_hash : String
  pub completed_at : String

-- The tables: events by ascending sequence, the cells of `metadata` that the code reads, and the
-- sequence that SQLite gives to the next event.
pub record Database : Type 0 where
  pub events : List EventRow
  pub next_sequence : ℕ
  pub snapshots : List SnapshotRow
  pub legacy_import_receipts : List LegacyImportReceipt
  pub authority_receipts : List AuthorityReceipt
  pub encryption_salt : Option String
  pub key_check : EncryptedPayload
  pub event_chain_head : Option String
  pub database_id : Option String
  -- What `PRAGMA integrity_check` says: "ok", or something else.
  pub is_integral : Bool

-- What the code takes from node:crypto and from JSON.
pub record Vault : Type 0 where
  -- `scryptSync(passphrase, salt, 32, ...)`
  pub scrypt : (passphrase salt : String) → String
  -- AES-256-GCM; `decrypt` is `none` where it throws.
  pub encrypt : (key nonce plaintext aad : String) → EncryptedPayload
  pub decrypt : (key : String) → EncryptedPayload → (aad : String) → Option String
  -- `JSON.parse`, `none` where it throws, and `JSON.stringify`.
  pub parse_json : String → Option Json
  pub print_json : Json → String
  -- The number that a JSON number is, if it is an integer and not negative.
  pub integer_of : String → Option ℕ

pub data StoreError : Type 0 where
  identifier_invalid schema_version_invalid payload_undefined passphrase_too_short : StoreError
  integrity_failed metadata_incomplete locked head_missing head_unauthenticated head_mismatch :
      StoreError
  constraint_violated history_mismatch database_id_invalid : StoreError
  chain_broken event_hash_invalid payload_unauthenticated : (sequence : ℕ) → StoreError
  snapshot_mismatch snapshot_rollback snapshot_unauthenticated : StoreError

abbrev pub Outcome : Type 0 → Type 0
Outcome A = Result StoreError A

-- `[A-Za-z0-9._:-]`
abbrev is_identifier_code : ℕ → Bool
is_identifier_code c = is_alphanumeric c || c == 46 || c == 95 || c == 58 || c == 45

abbrev starts_alphanumeric : List ℕ → Bool
starts_alphanumeric [] = false
starts_alphanumeric (c ∷ cs) = is_alphanumeric c

-- `assertIdentifier`: `/^[A-Za-z0-9][A-Za-z0-9._:-]{0,127}$/`
unfoldable pub assert_identifier : String → Outcome (Unit {0})
assert_identifier value =
    guard
      (starts_alphanumeric (codes value)
        && all is_identifier_code (codes value)
        && leb (length (codes value)) 128)
      identifier_invalid

-- `assertSchemaVersion`
unfoldable pub assert_schema_version : ℕ → Outcome (Unit {0})
assert_schema_version value = guard (leb 1 value) schema_version_invalid

-- `[a-f0-9]`
abbrev is_hex_code : ℕ → Bool
is_hex_code c = leb 97 c && leb c 102 || leb 48 c && leb c 57

abbrev starts_sha256 : List ℕ → Bool
starts_sha256 (a ∷ b ∷ c ∷ d ∷ e ∷ f ∷ g ∷ _) =
    a == 115 && b == 104 && c == 97 && d == 50 && e == 53 && f == 54 && g == 58
starts_sha256 _ = false

-- `/^sha256:[a-f0-9]{64}$/`
unfoldable pub is_hash : String → Bool
is_hash s = starts_sha256 (codes s) && all is_hex_code (drop 7 (codes s)) && length (codes s) == 71

-- `parsed.name` of what `JSON.parse` gives; only objects have fields.
abbrev field_of : String → Fields → Json
field_of name end = undefined
field_of name (field key value rest) = if key === name then value else field_of name rest

abbrev property_of : String → Json → Json
property_of name (obj fields) = field_of name fields
property_of name _ = undefined

-- A field that has to be a text.
abbrev text_of : Json → Option String
text_of (str s) = some s
text_of _ = none

-- A field that has to be an integer that is not negative.
abbrev count_of : Vault → Json → Option ℕ
count_of v (num text) = v.integer_of text
count_of v _ = none

abbrev key_check_aad : String
key_check_aad = "vocation-os:key-check:v1"

abbrev key_check_value : String
key_check_value = "vocation-os-encrypted-store"

abbrev pub chain_head_aad : String
chain_head_aad = "vocation-os:chain-head:v1"

-- The columns that stand beside the ciphertext and are authenticated with it.
abbrev aad_json : RowContent → Json
aad_json r = obj (
    field "eventId" (str r.event_id) (
      field "aggregateType" (str r.aggregate_type) (
        field "aggregateId" (str r.aggregate_id) (
          field "eventType" (str r.event_type) (
            field "schemaVersion" (num (decimal r.schema_version))
              (field "occurredAt" (str r.occurred_at) end))))))

abbrev content_json : RowContent → Json
content_json r = obj (
    field "event_id" (str r.event_id) (
      field "aggregate_type" (str r.aggregate_type) (
        field "aggregate_id" (str r.aggregate_id) (
          field "event_type" (str r.event_type) (
            field "schema_version" (num (decimal r.schema_version)) (
              field "occurred_at" (str r.occurred_at) (
                field "payload_ciphertext" (str r.payload_ciphertext) (
                  field "payload_nonce" (str r.payload_nonce) (
                    field "payload_tag" (str r.payload_tag)
                      (field "previous_hash" (str r.previous_hash) end))))))))))

abbrev pub head_json : ChainHead → Json
head_json h =
    obj (field "eventCount" (num (decimal h.event_count)) (field "headHash" (str h.head_hash) end))

abbrev pub encrypted_json : EncryptedPayload → Json
encrypted_json e = obj (
    field "ciphertext" (str e.ciphertext)
      (field "nonce" (str e.nonce) (field "tag" (str e.tag) end)))

-- The payload of a row, as `decrypt` takes it.
abbrev pub payload_of : RowContent → EncryptedPayload
payload_of r = record {
  ciphertext = r.payload_ciphertext;
  nonce = r.payload_nonce;
  tag = r.payload_tag;
}

module _ (p : Platform) where
  abbrev pub genesis_hash : String
  genesis_hash = sha256 p "vocation-os:event-chain:v1"

  unfoldable pub event_aad : RowContent → String
  event_aad r = stringify p (aad_json r)

  unfoldable pub compute_event_hash : RowContent → String
  compute_event_hash r = sha256 p (stringify p (content_json r))

  module _ (v : Vault) where
    unfoldable pub encode_chain_head : (key nonce : String) → ChainHead → String
    encode_chain_head key nonce head =
        v.print_json
          (encrypted_json (v.encrypt key nonce (stringify p (head_json head)) chain_head_aad))

    -- `deriveKey`
    unfoldable pub derive_key : (passphrase salt : String) → Outcome String
    derive_key passphrase salt =
        guard (leb 12 (utf16_length passphrase)) passphrase_too_short
        >> ok (v.scrypt passphrase salt)

module _ (v : Vault) where
  -- What `JSON.parse(decrypt(key, payload, aad))` gives, if it does not throw.
  unfoldable pub opened : (key : String) → EncryptedPayload → (aad : String) → Option Json
  opened key payload aad = elim (v.decrypt key payload aad) [
    | none ↦ none
    | some text ↦ v.parse_json text
  ]

  -- A field of the sealed head that has to be a text.
  abbrev head_text : String → Json → Outcome String
  head_text name j = or_throw (text_of (property_of name j)) head_unauthenticated

  -- `decodeChainHead`: whatever goes wrong, the head cannot be authenticated.
  unfoldable pub decode_chain_head : (key value : String) → Outcome ChainHead
  unfolding opened is_hash
  decode_chain_head key value = do
    sealed ← or_throw (v.parse_json value) head_unauthenticated
    ciphertext ← head_text "ciphertext" sealed
    nonce ← head_text "nonce" sealed
    tag ← head_text "tag" sealed
    parsed ←
        or_throw
          (opened key (record { ciphertext = ciphertext; nonce = nonce; tag = tag }) chain_head_aad)
          head_unauthenticated
    count ← or_throw (count_of v (property_of "eventCount" parsed)) head_unauthenticated
    hash ← head_text "headHash" parsed
    guard (is_hash hash) head_unauthenticated
    ok (record { event_count = count; head_hash = hash })
