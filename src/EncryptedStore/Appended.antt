-- ===== src/EncryptedStore/Appended.antt =====
-- What `append` adds is what `readAll` reads after it (storage/encrypted-event-store.ts).
use vocation_os.Prelude.{
  ◌+◌, ◌≡◌, refl, sym, ap, true, List, [], ◌∷◌, ◌++◌, String, some, length, ok, err, inl, inr,
  arith, ==_iff, Result-cases, length-append,
}
use vocation_os.Runtime.{Platform}
use vocation_os.Hash.{Json, stringify}
use vocation_os.Text.{decimal}
use vocation_os.EncryptedStore.{
  ChainHead, EncryptedPayload, StoredEvent, Database, Vault, genesis_hash, head_json,
  encrypted_json, chain_head_aad, encode_chain_head, decode_chain_head, opened, is_hash,
  head_mismatch, event_aad, EventRow,
}
use vocation_os.EncryptedStore.Read.{
  stored_event, chain_head, read_all, matches_head, opened_payload,
}
use vocation_os.EncryptedStore.Append.{
  AppendEventInput, Fresh, last_hash, new_content, new_row, with_row, append_expecting, append,
  check_input,
}
use vocation_os.EncryptedStore.Chain.{IsLink, read_rows-append, read_rows-last_hash}
use vocation_os.EncryptedStore.Intact.{IsIntact, read_all-IsIntact, IsIntact-read_all}

-- What is encrypted under a key is decrypted again under that key, with the data that was
-- authenticated with it.
abbrev pub Decrypts : Vault → Type 0
Decrypts v =
    (key nonce text aad : String) → v.decrypt key (v.encrypt key nonce text aad) aad ≡ some text

-- `JSON.parse` reads a head and its encrypted form as they were printed, and its hash is one that
-- the code takes for a digest.
pub record IsReadable (p : Platform) (v : Vault) (key nonce : String) (head : ChainHead)
    : Type 0 where
  pub head_parsed : v.parse_json (stringify p (head_json head)) ≡ some (head_json head)
  pub sealed_parsed :
      v.parse_json (encode_chain_head p v key nonce head)
      ≡ some (encrypted_json (v.encrypt key nonce (stringify p (head_json head)) chain_head_aad))
  pub counted : v.integer_of (decimal head.event_count) ≡ some head.event_count
  pub hashed : is_hash head.head_hash ≡ true

module _ (p : Platform) (v : Vault) (key : String) (decrypts : Decrypts v) where
  pub opened-encrypt :
      (nonce text aad : String) (j : Json)
      → v.parse_json text ≡ some j
      → opened v key (v.encrypt key nonce text aad) aad ≡ some j
  unfolding opened
  opened-encrypt nonce text aad j parsed = rw (opened, decrypts key nonce text aad) parsed

  pub decode-encode_chain_head :
      (nonce : String) (head : ChainHead)
      → IsReadable p v key nonce head
      → decode_chain_head v key (encode_chain_head p v key nonce head) ≡ ok head
  unfolding decode_chain_head
  decode-encode_chain_head nonce head r =
      let sealed : EncryptedPayload =
        v.encrypt key nonce (stringify p (head_json head)) chain_head_aad in
      let opens : opened v key
            (record { ciphertext = sealed.ciphertext; nonce = sealed.nonce; tag = sealed.tag })
            chain_head_aad
          ≡ some (head_json head) =
        opened-encrypt nonce (stringify p (head_json head)) chain_head_aad (head_json head)
          r.head_parsed in
      ground (arith, r.sealed_parsed, opens, r.counted, r.hashed)

  new_content-opens :
      (input : AppendEventInput) (fresh : Fresh) (previous : String) (back : Json)
      → v.parse_json (stringify p input.payload) ≡ some back
      → opened_payload p v key (new_content p v key input fresh previous) ≡ some back
  unfolding new_content opened_payload event_aad
  new_content-opens input fresh previous back parsed =
      opened-encrypt fresh.payload_nonce (stringify p input.payload)
        (event_aad p (new_content p v key input fresh previous)) back parsed

module _ (p : Platform) (v : Vault) (key : String) where
  expecting_parts :
      (expected : ChainHead) (input : AppendEventInput) (fresh : Fresh) (db t : Database)
      (e : StoredEvent)
      → append_expecting p v key expected input fresh db ≡ ok (e, t)
      → (t ≡ with_row p v key db (new_row p v key input fresh db) fresh.head_nonce)
        × (e ≡ stored_event (new_row p v key input fresh db) input.payload)
        × (matches_head expected (length db.events) (last_hash (genesis_hash p) db.events) ≡ true)
  unfolding append_expecting
  expecting_parts expected input fresh db t e h = ground arith

  -- What is there after an `append` that succeeds.
  pub append-new_row :
      (input : AppendEventInput) (fresh : Fresh) (db t : Database) (e : StoredEvent)
      → append p v key input fresh db ≡ ok (e, t)
      → (t ≡ with_row p v key db (new_row p v key input fresh db) fresh.head_nonce)
        × (e ≡ stored_event (new_row p v key input fresh db) input.payload)
  unfolding append
  append-new_row input fresh db t e h = elim (Result-cases (check_input p v key input fresh)) [
    | inr (why, failed) ↦ absurd (ground arith)
    | inl (_, checked) ↦ elim (Result-cases (chain_head p v key db)) [
      | inr (why, failed) ↦ absurd (ground arith)
      | inl (expected, read) ↦
          let (t_is, e_is, _) = expecting_parts expected input fresh db t e (ground arith) in
          (t_is, e_is)
    ]
  ]

new_row-IsLink :
    (p : Platform) (v : Vault) (key : String) (decrypts : Decrypts v) (input : AppendEventInput)
    (fresh : Fresh) (db : Database) (h : String) (back : Json)
    → v.parse_json (stringify p input.payload) ≡ some back
    → last_hash (genesis_hash p) db.events ≡ h
    → IsLink p v key h (new_row p v key input fresh db) back
unfolding new_row new_content
new_row-IsLink p v key decrypts input fresh db h back parsed last = record {
  follows = last;
  hashed = refl;
  opens =
      new_content-opens p v key decrypts input fresh (last_hash (genesis_hash p) db.events) back
        parsed;
}

with_row-IsIntact :
    (p : Platform) (v : Vault) (key : String) (decrypts : Decrypts v) (db : Database) (r : EventRow)
    (nonce : String) (es : List StoredEvent) (back : Json) (i : IsIntact p v key db es)
    → IsLink p v key i.head.head_hash r back
    → IsReadable p v key nonce
        (record { event_count = length db.events + 1; head_hash = r.event_hash })
    → IsIntact p v key (with_row p v key db r nonce) (es ++ stored_event r back ∷ [])
unfolding with_row chain_head
with_row-IsIntact p v key decrypts db r nonce es back i link readable = record {
  head = record { event_count = length db.events + 1; head_hash = r.event_hash };
  head_read =
      decode-encode_chain_head p v key decrypts nonce
        (record { event_count = length db.events + 1; head_hash = r.event_hash }) readable;
  walked =
      read_rows-append p v key (genesis_hash p) db.events r back es i.head.head_hash i.walked link;
  counted = sym (length-append db.events (r ∷ []));
}

-- If an intact store takes an event, `readAll` of the store afterwards gives the events from before
-- and, last, the event that `append` returned, with its payload as `JSON.parse` reads it. The
-- hypotheses are that decryption undoes encryption, and that JSON and digests read as they should
-- for this payload and this new head.
pub append-read_all :
    (p : Platform) (v : Vault) (key : String) (input : AppendEventInput) (fresh : Fresh)
    (db t : Database) (es : List StoredEvent) (e : StoredEvent) (back : Json)
    → Decrypts v
    → v.parse_json (stringify p input.payload) ≡ some back
    → IsReadable p v key fresh.head_nonce
        (record { event_count = length db.events + 1; head_hash = e.event_hash })
    → read_all p v key db ≡ ok es
    → append p v key input fresh db ≡ ok (e, t)
    → read_all p v key t ≡ ok (es ++ record e { payload = back } ∷ [])
append-read_all p v key input fresh db t es e back decrypts parsed readable all h =
    let r : EventRow = new_row p v key input fresh db in
    let i = read_all-IsIntact p v key db es all in
    let (t_is, e_is) = append-new_row p v key input fresh db t e h in
    let (last, _) =
      read_rows-last_hash p v key (genesis_hash p) db.events es i.head.head_hash i.walked in
    let link = new_row-IsLink p v key decrypts input fresh db i.head.head_hash back parsed last in
    let intact =
      with_row-IsIntact p v key decrypts db r fresh.head_nonce es back i link
        (rw (← ap (λ x. x.event_hash) e_is) readable) in
    rw (t_is, e_is)
      (IsIntact-read_all p v key (with_row p v key db r fresh.head_nonce)
        (es ++ stored_event r back ∷ []) intact)

-- An `append` whose head was read before another `append` succeeded is refused, and stores nothing.
pub append-stale :
    (p : Platform) (v : Vault) (key : String) (expected : ChainHead)
    (first second : AppendEventInput) (fresh fresh' : Fresh) (db t : Database) (e : StoredEvent)
    → chain_head p v key db ≡ ok expected
    → append p v key first fresh db ≡ ok (e, t)
    → append_expecting p v key expected second fresh' t ≡ err head_mismatch
unfolding append append_expecting with_row
append-stale p v key expected first second fresh fresh' db t e read h =
    elim (Result-cases (check_input p v key first fresh)) [
      | inr (why, failed) ↦ absurd (ground arith)
      | inl (_, checked) ↦
          let (t_is, _, matched) =
            expecting_parts p v key expected first fresh db t e (ground arith) in
          let counted : expected.event_count ≡ length db.events =
            ground (arith, ==_iff expected.event_count (length db.events)) in
          let longer : length t.events ≡ length db.events + 1 =
            rw t_is (length-append db.events (new_row p v key first fresh db ∷ [])) in
          ground (arith, ==_iff expected.event_count (length t.events))
    ]
