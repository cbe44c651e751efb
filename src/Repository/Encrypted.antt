-- ===== src/Repository/Encrypted.antt =====
-- The store of the repositories of storage/product-repositories.ts is the one of
-- storage/encrypted-event-store.ts: what they hand to `append`, and what they read of `readAggregate`.
use vocation_os.Prelude.{
  ℕ, suc, ◌+◌, ◌≡◌, refl, ◌∙◌, true, false, List, [], ◌∷◌, ◌++◌, Option, none, some, String, keep,
  keep-append, length, ok, err, arith, eq_refl, Result-cases, Option-cases, inl, inr,
}
use vocation_os.Runtime.{Platform, is_finite}
use vocation_os.Hash.{Json, undefined, obj, str, field, end, stringify}
use vocation_os.EncryptedStore.{Database, Vault, StoredEvent}
use vocation_os.EncryptedStore.Read.{is_of_aggregate, read_all, read_aggregate, stored_event}
use vocation_os.EncryptedStore.Append.{AppendEventInput, Fresh, append, new_row, new_content}
use vocation_os.EncryptedStore.Appended.{Decrypts, IsReadable, append-read_all, append-new_row}
use vocation_os.Repository.{
  DomainAuthorityBinding, DomainDescriptor, DomainEvent, DomainPayload, payload_of, EventStore,
}

-- `metadata` of a payload, undefined without an authority.
abbrev metadata_json : Option (DomainAuthorityBinding × String) → Json
metadata_json none = undefined
metadata_json (some (a, response_hash)) = obj (
    field "authority"
      (obj (
        field "requestId" (str a.request_id) (
          field "requestHash" (str a.request_hash)
            (field "operation" (str a.operation) (field "responseHash" (str response_hash) end)))))
      end)

abbrev audit_json : Option Json → Json
audit_json none = undefined
audit_json (some j) = j

module _ {T : Type 0} (p : Platform) (d : DomainDescriptor T) where
  -- `DomainEventPayload`, as it is handed to the store.
  unfoldable pub payload_json : DomainEvent T → Json
  payload_json e = obj (
      field "record" (d.record_json e.stored) (
        field "response" (d.record_json e.response)
          (field "audit" (audit_json e.audit) (field "metadata" (metadata_json e.authority) end))))

  -- The argument of `store.append`.
  unfoldable pub append_input : DomainEvent T → AppendEventInput
  unfolding payload_json
  append_input e = record {
    event_id = some e.event_id;
    aggregate_type = e.aggregate_type;
    aggregate_id = e.aggregate_id;
    event_type = e.event_type;
    schema_version = 1;
    payload = payload_json e;
    occurred_at = p.parse_date e.stored.recorded_at;
  }

-- The payloads of events; `read` is how a JSON value is one, `none` if it lacks a field that is read.
unfoldable pub payloads_of :
    {T : Type 0} (read : Json → Option (DomainPayload T))
    → List StoredEvent
    → Option (List (DomainPayload T))
payloads_of read [] = some []
payloads_of read (e ∷ es) =
    let rest = payloads_of read es in
    elim (read e.payload) [
      | none ↦ none
      | some x ↦ elim rest [ none ↦ none | some xs ↦ some (x ∷ xs) ]
    ]

payloads_of-append :
    {T : Type 0} (read : Json → Option (DomainPayload T)) (es : List StoredEvent) (e : StoredEvent)
    (xs : List (DomainPayload T)) (x : DomainPayload T)
    → payloads_of read es ≡ some xs
    → read e.payload ≡ some x
    → payloads_of read (es ++ e ∷ []) ≡ some (xs ++ x ∷ [])
unfolding payloads_of
payloads_of-append read [] e xs x h k = ground arith
payloads_of-append read (y ∷ ys) e xs x h k = elim (Option-cases (read y.payload)) [
  | inl n ↦ absurd (ground arith)
  | inr (z, g) ↦ elim (Option-cases (payloads_of read ys)) [
    | inl n ↦ absurd (ground arith)
    | inr (zs, m) ↦
        let rest = payloads_of-append read ys e zs x m k in
        let whole : xs ≡ z ∷ zs = ground arith in rw (g, rest, whole) refl
  ]
]

module _ {T : Type 0} (p : Platform) (d : DomainDescriptor T) (v : Vault) (key : String)
    (read : Json → Option (DomainPayload T)) (draws : ℕ → Fresh) where
  -- The database, and how often `append` has drawn from the clock and the random source.
  abbrev pub Drawn : Type 0
  Drawn = Database × ℕ

  -- `store.readAggregate`, `none` where it throws.
  unfoldable pub read_payloads :
      Drawn → (aggregate_type aggregate_id : String) → Option (List (DomainPayload T))
  unfolding payloads_of
  read_payloads s aggregate_type aggregate_id =
      elim (read_aggregate p v key s.0 aggregate_type aggregate_id) [
        | err e ↦ none
        | ok events ↦ payloads_of read events
      ]

  -- `store.append`, `none` where it throws, or where the time of the record is not a time.
  unfoldable pub append_stored : Drawn → DomainEvent T → Option Drawn
  unfolding append_input
  append_stored s e = elim (is_finite (p.parse_date e.stored.recorded_at)) [
    | false ↦ none
    | true ↦ elim (append p v key (append_input p d e) (draws (s.1)) (s.0)) [
      | err why ↦ none
      | ok (_, t) ↦ some (t, suc (s.1))
    ]
  ]

  -- `JSON.parse` reads the payload of the event, with its record and response, and the new head.
  pub record IsReadableEvent (s : Drawn) (e : DomainEvent T) : Type 0 where
    pub back : Json
    pub parsed : v.parse_json (stringify p (payload_json p d e)) ≡ some back
    pub read_back : read back ≡ some (payload_of e)
    pub head : IsReadable p v key (draws (s.1)).head_nonce (record {
      event_count = length (s.0).events + 1;
      head_hash = (new_row p v key (append_input p d e) (draws (s.1)) (s.0)).event_hash;
    })

  read_payloads-parts :
      (s : Drawn) (aggregate_type aggregate_id : String) (xs : List (DomainPayload T))
      → read_payloads s aggregate_type aggregate_id ≡ some xs
      → (all : List StoredEvent) × (read_all p v key (s.0) ≡ ok all)
        × (payloads_of read (keep (is_of_aggregate aggregate_type aggregate_id) all) ≡ some xs)
  unfolding read_payloads read_aggregate
  read_payloads-parts s aggregate_type aggregate_id xs h =
      elim (Result-cases (read_all p v key (s.0))) [
        | inr (why, failed) ↦ absurd (ground arith)
        | inl (all, found) ↦ (all, found, ground arith)
      ]

  read_payloads-all :
      (s : Drawn) (aggregate_type aggregate_id : String) (all : List StoredEvent)
      → read_all p v key (s.0) ≡ ok all
      → read_payloads s aggregate_type aggregate_id
        ≡ payloads_of read (keep (is_of_aggregate aggregate_type aggregate_id) all)
  unfolding read_payloads read_aggregate
  read_payloads-all s aggregate_type aggregate_id all h = ground arith

  append_stored-parts :
      (s t : Drawn) (e : DomainEvent T)
      → append_stored s e ≡ some t
      → (made : StoredEvent) × (append p v key (append_input p d e) (draws (s.1)) (s.0)
          ≡ ok (made, t.0))
  unfolding append_stored
  append_stored-parts s t e h =
      elim (Result-cases (append p v key (append_input p d e) (draws (s.1)) (s.0))) [
        | inr (why, failed) ↦ absurd (ground arith)
        | inl ((made, u), done) ↦ (made, ground arith)
      ]

  -- An event of the new row belongs to the aggregate of the input.
  new_row-is_of :
      (s : Drawn) (e : DomainEvent T) (back : Json)
      → is_of_aggregate e.aggregate_type e.aggregate_id
          (stored_event (new_row p v key (append_input p d e) (draws (s.1)) (s.0)) back)
        ≡ true
  unfolding new_row new_content append_input
  new_row-is_of s e back = ground (arith, eq_refl e.aggregate_type, eq_refl e.aggregate_id)

  pub append_stored-read_own :
      Decrypts v
      → (s t : Drawn) (e : DomainEvent T) (xs : List (DomainPayload T)) → append_stored s e ≡ some t
      → IsReadableEvent s e
      → read_payloads s e.aggregate_type e.aggregate_id ≡ some xs
      → read_payloads t e.aggregate_type e.aggregate_id ≡ some (xs ++ payload_of e ∷ [])
  unfolding append_input
  append_stored-read_own decrypts s t e xs h back known =
      let (made, done) = append_stored-parts s t e h in
      let (all, found, read_xs) = read_payloads-parts s e.aggregate_type e.aggregate_id xs known in
      let input = append_input p d e in
      let made_is = (append-new_row p v key input (draws (s.1)) (s.0) (t.0) made done).1 in
      let new : StoredEvent = stored_event (new_row p v key input (draws (s.1)) (s.0)) back.back in
      let mine = is_of_aggregate e.aggregate_type e.aggregate_id in
      let after : read_all p v key (t.0) ≡ ok (all ++ new ∷ []) = rw made_is at (
        append-read_all p v key input (draws (s.1)) (s.0) (t.0) all made back.back decrypts
          back.parsed (rw made_is back.head) found done) in
      read_payloads-all t e.aggregate_type e.aggregate_id (all ++ new ∷ []) after
      ∙ rw (keep-append mine all (new ∷ []), new_row-is_of s e back.back)
          (payloads_of-append read (keep mine all) new xs (payload_of e) read_xs back.read_back)

  -- The encrypted store, as the repositories use it.
  abbrev pub encrypted_store : Decrypts v → EventStore T
  encrypted_store decrypts = record {
    Store = Drawn;
    read_aggregate = read_payloads;
    append = append_stored;
    ReadsBack = IsReadableEvent;
    read_own = append_stored-read_own decrypts;
  }
