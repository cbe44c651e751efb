-- ===== src/EncryptedStore/Reopened.antt =====
-- A store that was created is unlocked by its passphrase (storage/encrypted-event-store.ts).
use vocation_os.Prelude.{◌≡◌, refl, true, [], String, leb, ok, arith, Result-cases, inl, inr}
use vocation_os.Runtime.{Platform}
use vocation_os.Hash.{◌+++◌}
use vocation_os.Text.{is_truthy, utf16_length}
use vocation_os.EncryptedStore.{
  ChainHead, Database, Vault, genesis_hash, derive_key, encode_chain_head, key_check_aad,
  key_check_value,
}
use vocation_os.EncryptedStore.Read.{
  authenticate_history, authenticate_existing_store, read_all, chain_head, read_rows,
  is_database_id,
}
use vocation_os.EncryptedStore.Intact.{IsIntact, IsIntact-read_all, authenticate_history-read_all}
use vocation_os.EncryptedStore.Appended.{Decrypts, IsReadable, decode-encode_chain_head}
use vocation_os.EncryptedStore.Open.{OpenFresh, new_database, open_new, open_existing}

module _ (p : Platform) (v : Vault) where
  -- The head of an empty store.
  abbrev pub empty_head : ChainHead
  empty_head = record { event_count = 0; head_hash = genesis_hash p }

  new_database-IsIntact :
      (key : String) (fresh : OpenFresh)
      → Decrypts v
      → IsReadable p v key fresh.head_nonce empty_head
      → IsIntact p v key (new_database p v key fresh) []
  unfolding chain_head read_rows
  new_database-IsIntact key fresh decrypts readable = record {
    head = empty_head;
    head_read = decode-encode_chain_head p v key decrypts fresh.head_nonce empty_head readable;
    walked = refl;
    counted = refl;
  }

  new_database-open_existing :
      (passphrase key : String) (fresh : OpenFresh)
      → leb 12 (utf16_length passphrase) ≡ true
      → is_database_id ("DB-" +++ fresh.uuid) ≡ true
      → authenticate_existing_store p v (new_database p v key fresh) passphrase ≡ ok key
      → open_existing p v (new_database p v key fresh) passphrase
        ≡ ok (key, new_database p v key fresh)
  unfolding open_existing
  new_database-open_existing passphrase key fresh long named unlocked =
      rw (long, unlocked, named) refl

  -- A store that is created holds no events, and `open` with its passphrase gives the same key and
  -- the same tables again: if decryption undoes encryption, the head of the empty store reads back,
  -- its text and the salt are not empty, and the random id has the form of an id.
  pub open_new-opened :
      (passphrase key : String) (fresh : OpenFresh) (db : Database)
      → Decrypts v
      → IsReadable p v key fresh.head_nonce empty_head
      → is_truthy fresh.salt ≡ true
      → is_truthy (encode_chain_head p v key fresh.head_nonce empty_head) ≡ true
      → is_database_id ("DB-" +++ fresh.uuid) ≡ true
      → open_new p v passphrase fresh ≡ ok (key, db)
      → (read_all p v key db ≡ ok []) × (open_existing p v db passphrase ≡ ok (key, db))
  unfolding open_new authenticate_existing_store derive_key
  open_new-opened passphrase key fresh db decrypts readable salted headed named h =
      elim (Result-cases (derive_key p v passphrase fresh.salt)) [
        | inr (why, failed) ↦ absurd (ground arith)
        | inl (derived, e) ↦
            let same : derived ≡ key = ground arith in
            let made : db ≡ new_database p v key fresh = ground arith in
            let reads =
              IsIntact-read_all p v key (new_database p v key fresh) []
                (new_database-IsIntact key fresh decrypts readable) in
            let history : authenticate_history p v key (new_database p v key fresh) ≡ ok tt =
              rw (authenticate_history-read_all p v key (new_database p v key fresh), reads) refl in
            let unlocked = decrypts key fresh.check_nonce key_check_value key_check_aad in
            let long : leb 12 (utf16_length passphrase) ≡ true = ground arith in
            let again : authenticate_existing_store p v (new_database p v key fresh) passphrase
                ≡ ok key =
              ground (arith, salted, headed, e, same, unlocked, history) in
            (
              rw made reads,
              rw made (new_database-open_existing passphrase key fresh long named again),
            )
      ]
