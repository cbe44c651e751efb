-- ===== src/Examples/Vaults.antt =====
-- A small encrypted store. The cipher keeps the text and seals it with the key and the data that
-- goes with it; the JSON parser knows the values of the example; a digest is a checksum.
use vocation_os.Prelude.{
  ℕ, ◌+◌, ◌*◌, ◌%◌, ◌≡◌, refl, true, List, [], ◌∷◌, map, Option, none, some, String, ◌===◌, find,
  if◌then◌else◌, ok, err, ◌⊎◌, ◌>>=◌, eq_refl,
}
use vocation_os.Runtime.{Platform}
use vocation_os.Hash.{Json, sha256, stable_stringify, quote, str, obj, end, field, stringify, ◌+++◌}
use vocation_os.Text.{is_truthy, utf16_length, codes, decimal}
use vocation_os.EncryptedStore.{
  derive_key, EventRow, EncryptedPayload, ChainHead, StoredEvent, Database, Vault, head_mismatch,
  genesis_hash, head_json, encrypted_json, chain_head_aad, encode_chain_head, decode_chain_head,
  compute_event_hash, event_aad, assert_identifier, assert_schema_version, is_hash, opened,
}
use vocation_os.EncryptedStore.Read.{
  read_rows, opened_payload, stored_event, read_all, chain_head, authenticate_history,
  is_database_id,
}
use vocation_os.EncryptedStore.Append.{
  new_content, last_hash, check_input, AppendEventInput, Fresh, new_row, with_row, append,
  append_expecting,
}
use vocation_os.EncryptedStore.Intact.{authenticate_history-read_all}
use vocation_os.EncryptedStore.Tamper.{Collision, read_all-one_history}
use vocation_os.EncryptedStore.Appended.{Decrypts, IsReadable, append-read_all, append-stale}
use vocation_os.EncryptedStore.Open.{OpenFresh, open_new, open_existing}
use vocation_os.EncryptedStore.Reopened.{open_new-opened}
use vocation_os.Examples.Base.{platform, read_digits}

abbrev checksum : List ℕ → ℕ → ℕ
checksum [] n = n
checksum (c ∷ cs) n = checksum cs ((n * 131 + c) % 1_000_003)

-- Fifty-seven zeros and seven digits.
abbrev digest_of : String → String
digest_of s =
    "000000000000000000000000000000000000000000000000000000000"
    +++ decimal (1_000_000 + checksum (codes s) 7)

abbrev pub hashing_platform : Platform
hashing_platform = record platform { digest_hex = digest_of }

abbrev pub labelled : (key nonce text aad : String) → EncryptedPayload
labelled key nonce text aad = record { ciphertext = text; nonce = nonce; tag = key +++ "|" +++ aad }

abbrev pub open_sealed : (key : String) → EncryptedPayload → (aad : String) → Option String
open_sealed key e aad = if e.tag === (key +++ "|" +++ aad) then some e.ciphertext else none

-- The parser that knows the given values.
abbrev pub knowing : List Json → Vault
knowing values = record {
  scrypt = λ passphrase salt. passphrase +++ salt;
  encrypt = labelled;
  decrypt = open_sealed;
  parse_json = λ s. find (λ j. stringify hashing_platform j === s) values;
  print_json = stringify hashing_platform;
  integer_of = λ s. read_digits (codes s) 0;
}

abbrev pub input_one : AppendEventInput
input_one = record {
  event_id = some "EVT-1";
  aggregate_type = "campaign";
  aggregate_id = "C1";
  event_type = "created";
  schema_version = 1;
  payload = obj (field "goal" (str "nurse") end);
  occurred_at = none;
}

abbrev input_two : AppendEventInput
input_two = record input_one {
  event_id = none;
  event_type = "paused";
  payload = obj (field "why" (str "holiday") end);
}

abbrev pub fresh_one : Fresh
fresh_one = record { now = 10; uuid = "u1"; payload_nonce = "n1"; head_nonce = "m1" }

abbrev fresh_two : Fresh
fresh_two = record { now = 20; uuid = "u2"; payload_nonce = "n2"; head_nonce = "m2" }

abbrev passphrase : String
passphrase = "correct horse"

abbrev pub key : String
key = passphrase +++ "salt"

abbrev pub sealed_head : (nonce : String) → ChainHead → Json
sealed_head nonce h =
    encrypted_json (labelled key nonce (stringify hashing_platform (head_json h)) chain_head_aad)

abbrev pub head_of : ℕ → String → ChainHead
head_of count hash = record { event_count = count; head_hash = hash }

abbrev pub head_zero : ChainHead
head_zero = head_of 0 (genesis_hash hashing_platform)

abbrev pub empty_database : Database
empty_database = record {
  events = [];
  next_sequence = 1;
  snapshots = [];
  legacy_import_receipts = [];
  authority_receipts = [];
  encryption_salt = some "salt";
  key_check = labelled key "n0" "vocation-os-encrypted-store" "vocation-os:key-check:v1";
  event_chain_head = some (encode_chain_head hashing_platform (knowing []) key "m0" head_zero);
  database_id = some "DB-00000000-0000-0000-0000-000000000001";
  is_integral = true;
}

abbrev pub row_one : EventRow
row_one = new_row hashing_platform (knowing []) key input_one fresh_one empty_database

abbrev pub database_one : Database
database_one = with_row hashing_platform (knowing []) key empty_database row_one "m1"

abbrev pub row_two : EventRow
row_two = new_row hashing_platform (knowing []) key input_two fresh_two database_one

abbrev pub database_two : Database
database_two = with_row hashing_platform (knowing []) key database_one row_two "m2"

abbrev pub vault : Vault
vault = knowing (
    input_one.payload
    ∷ input_two.payload
    ∷ head_json head_zero
    ∷ head_json (head_of 1 row_one.event_hash)
    ∷ head_json (head_of 2 row_two.event_hash)
    ∷ sealed_head "m0" head_zero
    ∷ sealed_head "m1" (head_of 1 row_one.event_hash)
    ∷ sealed_head "m2" (head_of 2 row_two.event_hash)
    ∷ [])

pub vault-Decrypts : Decrypts vault
vault-Decrypts key nonce text aad = rw (eq_refl (key +++ "|" +++ aad)) refl

abbrev pub event_one : StoredEvent
event_one = stored_event row_one input_one.payload

abbrev pub event_two : StoredEvent
event_two = stored_event row_two input_two.payload

one_read : read_all hashing_platform vault key database_one ≡ ok (event_one ∷ [])
unfolding read_all chain_head read_rows opened_payload opened is_hash quote with_row
    decode_chain_head stringify stable_stringify encode_chain_head decimal new_row
    compute_event_hash sha256 new_content event_aad last_hash
one_read = refl

pub two_read : read_all hashing_platform vault key database_two ≡ ok (event_one ∷ event_two ∷ [])
unfolding read_all chain_head read_rows opened_payload opened is_hash quote with_row
    decode_chain_head stringify stable_stringify encode_chain_head decimal new_row
    compute_event_hash sha256 new_content event_aad last_hash
two_read = refl

two_appended :
    append hashing_platform vault key input_two fresh_two database_one
    ≡ ok (event_two, database_two)
unfolding append append_expecting check_input assert_identifier assert_schema_version chain_head
    is_hash opened quote with_row decode_chain_head stringify stable_stringify encode_chain_head
    decimal new_row compute_event_hash sha256 new_content event_aad last_hash
two_appended = refl

two_parsed :
    vault.parse_json (stringify hashing_platform input_two.payload) ≡ some input_two.payload
unfolding quote with_row decode_chain_head stringify stable_stringify encode_chain_head decimal
    new_row compute_event_hash sha256 new_content event_aad last_hash
two_parsed = refl

head_one_read :
    chain_head hashing_platform vault key database_one ≡ ok (head_of 1 row_one.event_hash)
unfolding chain_head is_hash opened quote with_row decode_chain_head stringify stable_stringify
    encode_chain_head decimal new_row compute_event_hash sha256 new_content event_aad last_hash
head_one_read = refl

two-IsReadable : IsReadable hashing_platform vault key "m2" (head_of 2 row_two.event_hash)
unfolding is_hash quote with_row decode_chain_head stringify stable_stringify encode_chain_head
    decimal new_row compute_event_hash sha256 new_content event_aad last_hash
two-IsReadable = record { head_parsed = refl; sealed_parsed = refl; counted = refl; hashed = refl }

append-read_all_example :
    read_all hashing_platform vault key database_two ≡ ok (event_one ∷ event_two ∷ [])
unfolding with_row
append-read_all_example =
    append-read_all hashing_platform vault key input_two fresh_two database_one database_two
      (event_one ∷ []) event_two input_two.payload vault-Decrypts two_parsed two-IsReadable one_read
      two_appended

append-stale_example :
    append_expecting hashing_platform vault key
      (head_of 1 row_one.event_hash)
      input_one
      fresh_one
      database_two
    ≡ err head_mismatch
append-stale_example =
    append-stale hashing_platform vault key (head_of 1 row_one.event_hash) input_two input_one
      fresh_two fresh_one database_one database_two event_two head_one_read two_appended

-- The same history under other sequence numbers.
abbrev renumbered : Database
renumbered = record database_two {
  events = record row_one { sequence = 5 } ∷ record row_two { sequence = 9 } ∷ [];
}

renumbered_read :
    read_all hashing_platform vault key renumbered
    ≡ ok (record event_one { sequence = 5 } ∷ record event_two { sequence = 9 } ∷ [])
unfolding read_all chain_head read_rows opened_payload opened is_hash quote with_row
    decode_chain_head stringify stable_stringify encode_chain_head decimal new_row
    compute_event_hash sha256 new_content event_aad last_hash
renumbered_read = refl

read_all-one_history_example :
    (map (λ r. r.content) database_two.events ≡ map (λ r. r.content) renumbered.events)
    ⊎ Collision hashing_platform
unfolding chain_head
read_all-one_history_example =
    read_all-one_history hashing_platform vault key database_two renumbered
      (event_one ∷ event_two ∷ [])
      (record event_one { sequence = 5 } ∷ record event_two { sequence = 9 } ∷ []) two_read
      renumbered_read refl

authenticate_history-read_all_example :
    authenticate_history hashing_platform vault key database_two
    ≡ (read_all hashing_platform vault key database_two >>= λ _. ok tt)
authenticate_history-read_all_example =
    authenticate_history-read_all hashing_platform vault key database_two

abbrev fresh_zero : OpenFresh
fresh_zero = record {
  salt = "salt";
  check_nonce = "n0";
  head_nonce = "m0";
  uuid = "00000000-0000-0000-0000-000000000001";
}

opened_new : open_new hashing_platform vault passphrase fresh_zero ≡ ok (key, empty_database)
unfolding open_new derive_key utf16_length encode_chain_head stringify stable_stringify
opened_new = refl

zero-IsReadable : IsReadable hashing_platform vault key "m0" head_zero
unfolding is_hash quote with_row decode_chain_head stringify stable_stringify encode_chain_head
    decimal new_row compute_event_hash sha256 new_content event_aad last_hash
zero-IsReadable = record { head_parsed = refl; sealed_parsed = refl; counted = refl; hashed = refl }

zero_present : is_truthy (encode_chain_head hashing_platform vault key "m0" head_zero) ≡ true
unfolding encode_chain_head stringify stable_stringify decimal sha256 quote
zero_present = refl

named : is_database_id ("DB-" +++ fresh_zero.uuid) ≡ true
unfolding is_database_id
named = refl

open_new-opened_example :
    (read_all hashing_platform vault key empty_database ≡ ok [])
    × (open_existing hashing_platform vault empty_database passphrase ≡ ok (key, empty_database))
open_new-opened_example =
    open_new-opened hashing_platform vault passphrase key fresh_zero empty_database vault-Decrypts
      zero-IsReadable refl zero_present named opened_new
