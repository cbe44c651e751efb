-- ===== src/Repository.antt =====
-- storage/product-repositories.ts: versioned records of one domain, kept as events in a store.
-- Mutations run one after the other (`DomainMutationCoordinator`), so each is one step on the store.
pub mod History
pub mod Puts
pub mod Encrypted
use vocation_os.Prelude.{
  ℕ, zero, suc, ◌+◌, ◌-◌, ◌≤◌, ◌≡◌, Bool, true, false, not, ◌&&◌, ◌||◌, List, [], ◌∷◌, ◌++◌, Option,
  none, some, String, ltb, leb, ◌==◌, ◌===◌, if◌then◌else◌, length, find, all, drop, Result, ok,
  err, ◌>>=◌, ◌>>◌, guard, throw_if, or_throw,
}
use vocation_os.Runtime.{Platform, is_finite}
use vocation_os.Hash.{Json, ◌+++◌, sha256, stringify}
use vocation_os.Text.{codes, is_alphanumeric}

pub data DomainRecordStatus : Type 0 where
  active archived : DomainRecordStatus

abbrev pub is_active : DomainRecordStatus → Bool
is_active active = true
is_active archived = false

pub record VersionedDomainRecord (T : Type 0) : Type 0 where
  pub domain : String
  pub record_id : String
  pub version : ℕ
  pub status : DomainRecordStatus
  pub value : T
  pub value_hash : String
  pub operation_id : String
  pub recorded_at : String

pub record DomainAuthorityBinding : Type 0 where
  pub request_id : String
  pub request_hash : String
  pub operation : String

-- What is appended for one record: `response` is the record itself, `authority` has its hash added.
pub record DomainEvent (T : Type 0) : Type 0 where
  pub event_id : String
  pub aggregate_type : String
  pub aggregate_id : String
  pub event_type : String
  pub stored : VersionedDomainRecord T
  pub response : VersionedDomainRecord T
  pub audit : Option Json
  pub authority : Option (DomainAuthorityBinding × String)

pub record DomainDescriptor (T : Type 0) : Type 0 where
  pub domain : String
  pub id_of : T → String
  pub validate : T → Bool
  pub to_json : T → Json
  -- The record as `stableStringify` sees it.
  pub record_json : VersionedDomainRecord T → Json

-- What is read of an event's payload.
pub record DomainPayload (T : Type 0) : Type 0 where
  pub stored : VersionedDomainRecord T
  pub response : VersionedDomainRecord T

-- The payload of an event, as it is read again.
abbrev pub payload_of : {T : Type 0} → DomainEvent T → DomainPayload T
payload_of e = record { stored = e.stored; response = e.response }

-- What a repository uses of the store: `append` and `readAggregate`, which may throw.
pub record EventStore (T : Type 0) : Type 1 where
  pub Store : Type 0
  pub read_aggregate :
      Store → (aggregate_type aggregate_id : String) → Option (List (DomainPayload T))
  pub append : Store → DomainEvent T → Option Store
  -- Appended to this store, the event is one that can be read.
  pub ReadsBack : Store → DomainEvent T → Type 0
  -- An appended event that can be read is the last one of its aggregate.
  pub read_own :
      (s t : Store) (e : DomainEvent T) (es : List (DomainPayload T))
      → append s e ≡ some t
      → ReadsBack s e
      → read_aggregate s e.aggregate_type e.aggregate_id ≡ some es
      → read_aggregate t e.aggregate_type e.aggregate_id ≡ some (es ++ payload_of e ∷ [])

pub data DomainError : Type 0 where
  value_invalid identifier_invalid expected_version_invalid operation_id_invalid : DomainError
  wrong_domain version_invalid timestamp_invalid id_mismatch value_hash_invalid : DomainError
  version_gap response_not_bound replayed_with_different_content : DomainError
  version_conflict : (expected current : ℕ) → DomainError
  record_not_found store_refused : DomainError

-- `/^[A-Za-z0-9._:-]{1,160}$/`
unfoldable pub is_identifier : String → Bool
is_identifier s =
    all (λ c. is_alphanumeric c || c == 46 || c == 95 || c == 58 || c == 45) (codes s)
    && ltb 0 (length (codes s))
    && leb (length (codes s)) 160

-- `^REQ-`
abbrev starts_req : List ℕ → Bool
starts_req (a ∷ b ∷ c ∷ d ∷ _) = a == 82 && b == 69 && c == 81 && d == 45
starts_req _ = false

-- `/^REQ-[A-Za-z0-9-]{8,100}$/`
unfoldable pub is_operation_id : String → Bool
is_operation_id s =
    starts_req (codes s)
    && all (λ c. is_alphanumeric c || c == 45) (drop 4 (codes s))
    && leb 12 (length (codes s))
    && leb (length (codes s)) 104

-- `Number.isSafeInteger` of a natural number.
abbrev pub is_safe : ℕ → Bool
is_safe n = leb n 9_007_199_254_740_991

-- `records.at(-1)`
abbrev pub last {ℓ} : {A : Type ℓ} → List A → Option A
last [] = none
last (x ∷ []) = some x
last (x ∷ y ∷ ys) = last (y ∷ ys)

abbrev pub version_of : {T : Type 0} → Option (VersionedDomainRecord T) → ℕ
version_of none = 0
version_of (some r) = r.version

abbrev pub done_by : {T : Type 0} → String → VersionedDomainRecord T → Bool
done_by operation_id r = r.operation_id === operation_id

-- What `get` shows of the latest record.
abbrev pub visible :
    {T : Type 0} → Option (VersionedDomainRecord T) → Bool → Option (VersionedDomainRecord T)
visible none include_archived = none
visible (some r) include_archived =
    if not (is_active r.status) && not include_archived then none else some r

pub record PutInput (T : Type 0) : Type 0 where
  pub value : T
  pub expected_version : ℕ
  pub operation_id : String
  pub event_id : Option String
  pub now : ℕ
  pub authority : Option DomainAuthorityBinding
  pub audit : Option Json

pub record ArchiveInput : Type 0 where
  pub record_id : String
  pub expected_version : ℕ
  pub operation_id : String
  pub event_id : Option String
  pub now : ℕ
  pub authority : Option DomainAuthorityBinding

module _ {T : Type 0} (p : Platform) (d : DomainDescriptor T) where
  unfoldable pub value_hash_of : T → String
  value_hash_of v = sha256 p (stringify p (d.to_json v))

  -- `verifyRecord`
  unfoldable pub verify_record : VersionedDomainRecord T → Result DomainError (Unit {0})
  unfolding is_identifier is_operation_id
  verify_record r = do
    guard (r.domain === d.domain) wrong_domain
    guard (is_identifier r.record_id) identifier_invalid
    guard (is_operation_id r.operation_id) operation_id_invalid
    throw_if (not (is_safe r.version) || ltb r.version 1) version_invalid
    guard (is_finite (p.parse_date r.recorded_at)) timestamp_invalid
    guard (d.validate r.value) value_invalid
    guard (d.id_of r.value === r.record_id) id_mismatch
    guard (r.value_hash === value_hash_of r.value) value_hash_invalid

  -- `recordsFromEvents`; `index` is the number of the events before these.
  unfoldable pub records_from :
      (index : ℕ) → List (DomainPayload T) → Result DomainError (List (VersionedDomainRecord T))
  records_from index [] = ok []
  records_from index (e ∷ es) =
      verify_record e.stored
      >> guard (e.stored.version == suc index) version_gap
      >> guard (e.response.value_hash === e.stored.value_hash) response_not_bound
      >> (records_from (suc index) es >>= λ rs. ok (e.stored ∷ rs))

  abbrev pub aggregate_type_of : String
  aggregate_type_of = "domain-" +++ d.domain

  abbrev chosen_event_id : Option String → String → String
  chosen_event_id (some id) operation_id = id
  chosen_event_id none operation_id =
      "EVT-DOM-" +++ p.digest_hex (d.domain +++ ":" +++ operation_id)

  -- The authority binding with the hash of the response.
  abbrev bound_authority :
      Option DomainAuthorityBinding
      → VersionedDomainRecord T
      → Option (DomainAuthorityBinding × String)
  bound_authority none r = none
  bound_authority (some a) r = some (a, sha256 p (stringify p (d.record_json r)))

  unfoldable pub put_record : PutInput T → (current : ℕ) → VersionedDomainRecord T
  put_record input current = record {
    domain = d.domain;
    record_id = d.id_of input.value;
    version = current + 1;
    status = active;
    value = input.value;
    value_hash = value_hash_of input.value;
    operation_id = input.operation_id;
    recorded_at = p.to_iso_string input.now;
  }

  unfoldable pub put_event : PutInput T → VersionedDomainRecord T → DomainEvent T
  put_event input r = record {
    event_id = chosen_event_id input.event_id input.operation_id;
    aggregate_type = aggregate_type_of;
    aggregate_id = d.id_of input.value;
    event_type = "domain-record-put";
    stored = r;
    response = r;
    audit = input.audit;
    authority = bound_authority input.authority r;
  }

  archived_record : ArchiveInput → VersionedDomainRecord T → VersionedDomainRecord T
  archived_record input current = record current {
    version = current.version + 1;
    status = archived;
    operation_id = input.operation_id;
    recorded_at = p.to_iso_string input.now;
  }

  archive_event : ArchiveInput → VersionedDomainRecord T → DomainEvent T
  archive_event input r = record {
    event_id = chosen_event_id input.event_id input.operation_id;
    aggregate_type = aggregate_type_of;
    aggregate_id = input.record_id;
    event_type = "domain-record-archived";
    stored = r;
    response = r;
    audit = none;
    authority = bound_authority input.authority r;
  }

  module _ (es : EventStore T) where
    abbrev pub Outcome : Type 0 → Type 0
    Outcome A = Result DomainError A

    -- The records of an id, the oldest first.
    unfoldable pub history : es.Store → String → Outcome (List (VersionedDomainRecord T))
    unfolding is_identifier
    history s id = do
      guard (is_identifier id) identifier_invalid
      events ← or_throw (es.read_aggregate s aggregate_type_of id) store_refused
      records_from 0 events

    unfoldable pub get :
        es.Store → String → (include_archived : Bool) → Outcome (Option (VersionedDomainRecord T))
    get s id include_archived = do rs ← history s id; ok (visible (last rs) include_archived)

    -- `store.append`, with the record as the result.
    append_event :
        es.Store
        → DomainEvent T
        → VersionedDomainRecord T
        → Outcome (VersionedDomainRecord T × es.Store)
    append_event s e r = elim (es.append s e) [ none ↦ err store_refused | some t ↦ ok (r, t) ]

    -- A put whose operation id is new.
    unfoldable pub put_fresh :
        es.Store → PutInput T → (current : ℕ) → Outcome (VersionedDomainRecord T × es.Store)
    unfolding append_event
    put_fresh s input current = do
      guard (current == input.expected_version) (version_conflict input.expected_version current)
      verify_record (put_record input current)
      append_event s (put_event input (put_record input current)) (put_record input current)

    -- `putSerialized`
    unfoldable pub put : es.Store → PutInput T → Outcome (VersionedDomainRecord T × es.Store)
    unfolding is_identifier is_operation_id
    put s input = do
      guard (d.validate input.value) value_invalid
      guard (is_identifier (d.id_of input.value)) identifier_invalid
      guard (is_safe input.expected_version) expected_version_invalid
      guard (is_operation_id input.operation_id) operation_id_invalid
      rs ← history s (d.id_of input.value)
      elim (find (done_by input.operation_id) rs) [
        | some replay ↦ do
          throw_if
              (not (replay.value_hash === value_hash_of input.value)
                || not (is_active replay.status))
              replayed_with_different_content
          ok (replay, s)
        | none ↦ put_fresh s input (version_of (last rs))
      ]

    -- An archiving whose operation id is new; `current` is the latest record.
    archive_fresh :
        es.Store
        → ArchiveInput
        → VersionedDomainRecord T
        → Outcome (VersionedDomainRecord T × es.Store)
    unfolding append_event
    archive_fresh s input current = do
      guard (current.version == input.expected_version)
          (version_conflict input.expected_version current.version)
      elim current.status [
        | archived ↦ ok (current, s)
        | active ↦
            append_event s (archive_event input (archived_record input current))
              (archived_record input current)
      ]

    -- `archiveSerialized`
    archive : es.Store → ArchiveInput → Outcome (VersionedDomainRecord T × es.Store)
    unfolding is_operation_id
    archive s input = do
      guard (is_safe input.expected_version) expected_version_invalid
      guard (is_operation_id input.operation_id) operation_id_invalid
      rs ← history s input.record_id
      elim (find (done_by input.operation_id) rs) [
        | some replay ↦ do
          throw_if (is_active replay.status) replayed_with_different_content
          ok (replay, s)
        | none ↦ elim (last rs) [
          | none ↦ err record_not_found
          | some current ↦ archive_fresh s input current
        ]
      ]
