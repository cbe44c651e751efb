-- ===== src/Examples/Records.antt =====
-- The theorems on versioned records, at the encrypted store: a task is put into an empty one.
use vocation_os.Prelude.{
  ℕ, suc, ◌≡◌, refl, true, false, [], ◌∷◌, Option, none, some, String, ok, err, arith, eq_iff,
  eq_refl, ◌===◌, if◌then◌else◌,
}
use vocation_os.Hash.{
  Json, str, num, obj, field, end, stringify, stable_stringify, sha256, quote, ◌+++◌,
}
use vocation_os.Text.{decimal, codes}
use vocation_os.Repository.{
  VersionedDomainRecord, DomainEvent, DomainPayload, DomainDescriptor, EventStore, PutInput, active,
  archived, is_active, put, get, history, version_conflict, put_fresh, verify_record, put_record,
  value_hash_of, records_from, is_identifier, is_operation_id, put_event,
}
use vocation_os.Repository.Puts.{IsWellFormed, put-get, put-put, put-conflict}
use vocation_os.Repository.Encrypted.{
  payload_json, append_input, payloads_of, read_payloads, append_stored, IsReadableEvent,
  encrypted_store,
}
use vocation_os.EncryptedStore.{
  EventRow, Vault, Database, head_json, is_hash, opened, decode_chain_head, encode_chain_head,
  compute_event_hash, event_aad, assert_identifier, assert_schema_version,
}
use vocation_os.EncryptedStore.Read.{
  read_rows, opened_payload, read_all, read_aggregate, chain_head,
}
use vocation_os.EncryptedStore.Append.{
  Fresh, append, append_expecting, check_input, new_row, with_row, new_content, last_hash,
}
use vocation_os.EncryptedStore.Appended.{Decrypts}
use vocation_os.Examples.Base.{read_digits}
use vocation_os.Examples.Vaults.{
  hashing_platform, knowing, key, sealed_head, head_of, head_zero, empty_database, fresh_one,
}

abbrev status_text : VersionedDomainRecord String → String
status_text r = if is_active r.status then "active" else "archived"

abbrev tasks : DomainDescriptor String
tasks = record {
  domain = "tasks";
  id_of = λ v. "TASK-1";
  validate = λ v. true;
  to_json = λ v. str v;
  record_json = λ r. obj (
      field "domain" (str r.domain) (
        field "recordId" (str r.record_id) (
          field "version" (num (decimal r.version)) (
            field "status" (str (status_text r)) (
              field "value" (str r.value) (
                field "valueHash" (str r.value_hash) (
                  field "operationId" (str r.operation_id)
                    (field "recordedAt" (str r.recorded_at) end))))))));
}

abbrev read_record : Json → Option (VersionedDomainRecord String)
read_record
      (obj (
        field _ (str domain) (
          field _ (str id) (
            field _ (num version) (
              field _ (str status) (
                field _
                  (str value)
                  (field _ (str hash) (field _ (str operation) (field _ (str at) _))))))))) =
    elim (read_digits (codes version) 0) [
      | none ↦ none
      | some n ↦ some (record {
        domain = domain;
        record_id = id;
        version = n;
        status = if status === "active" then active else archived;
        value = value;
        value_hash = hash;
        operation_id = operation;
        recorded_at = at;
      })
    ]
read_record _ = none

abbrev read_payload : Json → Option (DomainPayload String)
read_payload (obj (field _ r (field _ q _))) = elim (read_record r) [
  | none ↦ none
  | some stored ↦ elim (read_record q) [
    | none ↦ none
    | some response ↦ some (record { stored = stored; response = response })
  ]
]
read_payload _ = none

abbrev input : PutInput String
input = record {
  value = "call";
  expected_version = 0;
  operation_id = "REQ-00000001";
  event_id = none;
  now = 1000;
  authority = none;
  audit = none;
}

abbrev late : PutInput String
late = record input { value = "write"; operation_id = "REQ-00000002" }

abbrev written : VersionedDomainRecord String
written = put_record hashing_platform tasks input 0

abbrev event : DomainEvent String
event = put_event hashing_platform tasks input written

abbrev draws : ℕ → Fresh
draws n = fresh_one

abbrev row : EventRow
row =
    new_row hashing_platform (knowing []) key (append_input hashing_platform tasks event) fresh_one
      empty_database

abbrev vault : Vault
vault = knowing (
    payload_json hashing_platform tasks event
    ∷ head_json head_zero
    ∷ head_json (head_of 1 row.event_hash)
    ∷ sealed_head "m0" head_zero
    ∷ sealed_head "m1" (head_of 1 row.event_hash)
    ∷ [])

decrypts : Decrypts vault
decrypts key nonce text aad = rw (eq_refl (key +++ "|" +++ aad)) refl

abbrev store : EventStore String
store = encrypted_store hashing_platform tasks vault key read_payload draws decrypts

abbrev before : Database × ℕ
before = (empty_database, 0)

abbrev after : Database × ℕ
after = (with_row hashing_platform (knowing []) key empty_database row "m1", 1)

first_put : put hashing_platform tasks store before input ≡ ok (written, after)
unfolding put put_fresh verify_record put_record value_hash_of history records_from is_identifier
    is_operation_id put_event stringify stable_stringify sha256 decimal quote read_payloads
    append_stored append_input payload_json payloads_of read_aggregate read_all chain_head read_rows
    opened_payload opened is_hash with_row decode_chain_head encode_chain_head new_row
    compute_event_hash new_content event_aad last_hash append append_expecting check_input
    assert_identifier assert_schema_version
first_put = refl

none_yet : history hashing_platform tasks store before "TASK-1" ≡ ok []
unfolding put put_fresh verify_record put_record value_hash_of history records_from is_identifier
    is_operation_id put_event stringify stable_stringify sha256 decimal quote read_payloads
    append_stored append_input payload_json payloads_of read_aggregate read_all chain_head read_rows
    opened_payload opened is_hash with_row decode_chain_head encode_chain_head new_row
    compute_event_hash new_content event_aad last_hash append append_expecting check_input
    assert_identifier assert_schema_version
none_yet = refl

readable : IsReadableEvent hashing_platform tasks vault key read_payload draws before event
unfolding put put_fresh verify_record put_record value_hash_of history records_from is_identifier
    is_operation_id put_event stringify stable_stringify sha256 decimal quote read_payloads
    append_stored append_input payload_json payloads_of read_aggregate read_all chain_head read_rows
    opened_payload opened is_hash with_row decode_chain_head encode_chain_head new_row
    compute_event_hash new_content event_aad last_hash append append_expecting check_input
    assert_identifier assert_schema_version
readable = record {
  back = payload_json hashing_platform tasks event;
  parsed = refl;
  read_back = refl;
  head = record { head_parsed = refl; sealed_parsed = refl; counted = refl; hashed = refl };
}

put-get_example :
    (get hashing_platform tasks store after "TASK-1" false ≡ ok (some written))
    × (written.value ≡ input.value)
    × (written.version ≡ suc input.expected_version)
put-get_example =
    put-get hashing_platform tasks store before after input [] written first_put readable none_yet
      refl

put-put_example :
    put hashing_platform tasks store after (record input { expected_version = 7; now = 9000 })
    ≡ ok (written, after)
put-put_example =
    put-put hashing_platform tasks store before after input
      (record input { expected_version = 7; now = 9000 }) written first_put readable refl refl refl

late_formed : IsWellFormed hashing_platform tasks store late
unfolding is_identifier is_operation_id
late_formed = record { valid = refl; named = refl; safe = refl; identified = refl }

put-conflict_example : put hashing_platform tasks store after late ≡ err (version_conflict 0 1)
put-conflict_example =
    put-conflict hashing_platform tasks store before after input late [] written first_put readable
      none_yet refl late_formed refl refl refl
      (λ e. ground (arith, eq_iff late.operation_id input.operation_id))
