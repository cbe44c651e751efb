-- ===== src/EncryptedStore/Receipts.antt =====
-- storage/encrypted-event-store.ts: receipts of imports and of requests, which the code looks up to
-- tell what was done before.
use vocation_os.Prelude.{
  true, false, ◌&&◌, not, List, [], ◌∷◌, ◌++◌, Option, some, String, ◌===◌, ◌≡◌, refl, any, find,
  if◌then◌else◌, ok, err, ◌>>◌, guard, arith, Result-cases, Bool-cases, eq_refl, inl, inr,
}
use vocation_os.EncryptedStore.{
  LegacyImportReceipt, AuthorityReceipt, Database, constraint_violated, Outcome, assert_identifier,
}

-- `findLegacyImportReceipt`
unfoldable pub find_legacy_import_receipt :
    Database → (source_digest : String) → Option LegacyImportReceipt
find_legacy_import_receipt db source_digest =
    find (λ r. r.source_digest === source_digest) db.legacy_import_receipts

-- `INSERT ... ON CONFLICT(source_digest) DO UPDATE`
upsert_receipt : LegacyImportReceipt → List LegacyImportReceipt → List LegacyImportReceipt
upsert_receipt r [] = r ∷ []
upsert_receipt r (x ∷ xs) =
    let rest = upsert_receipt r xs in
    if x.source_digest === r.source_digest then r ∷ xs else x ∷ rest

-- `recordLegacyImportReceipt`; the event id is declared UNIQUE.
unfoldable pub record_legacy_import_receipt : Database → LegacyImportReceipt → Outcome Database
unfolding upsert_receipt
record_legacy_import_receipt db r = do
  guard
      (not (
        any (λ x. not (x.source_digest === r.source_digest) && x.event_id === r.event_id)
          db.legacy_import_receipts))
      constraint_violated
  ok (record db { legacy_import_receipts = upsert_receipt r db.legacy_import_receipts })

-- `findAuthorityReceipt`
unfoldable pub find_authority_receipt :
    Database → (request_id : String) → Outcome (Option AuthorityReceipt)
find_authority_receipt db request_id = do
  assert_identifier request_id
  ok (find (λ r. r.request_id === request_id) db.authority_receipts)

-- `recordAuthorityReceipt`; the request id is the primary key.
unfoldable pub record_authority_receipt : Database → AuthorityReceipt → Outcome Database
record_authority_receipt db r = do
  assert_identifier r.request_id
  guard (not (any (λ x. x.request_id === r.request_id) db.authority_receipts)) constraint_violated
  ok (record db { authority_receipts = db.authority_receipts ++ r ∷ [] })

find-end :
    (rs : List AuthorityReceipt) (r : AuthorityReceipt)
    → any (λ x. x.request_id === r.request_id) rs ≡ false
    → find (λ x. x.request_id === r.request_id) (rs ++ r ∷ []) ≡ some r
find-end [] r h = ground (arith, eq_refl r.request_id)
find-end (x ∷ rs) r h = ground (arith, find-end rs r)

any-end :
    (rs : List AuthorityReceipt) (r : AuthorityReceipt)
    → any (λ x. x.request_id === r.request_id) (rs ++ r ∷ []) ≡ true
any-end [] r = ground (arith, eq_refl r.request_id)
any-end (x ∷ rs) r = ground (arith, any-end rs r)

-- A receipt that is recorded is found again, and a second one for the request is refused.
pub record-find_authority_receipt :
    (db t : Database) (r later : AuthorityReceipt)
    → record_authority_receipt db r ≡ ok t
    → later.request_id ≡ r.request_id
    → (find_authority_receipt t r.request_id ≡ ok (some r))
      × (record_authority_receipt t later ≡ err constraint_violated)
unfolding record_authority_receipt find_authority_receipt
record-find_authority_receipt db t r later h same =
    elim (Result-cases (assert_identifier r.request_id)) [
      | inr (why, failed) ↦ absurd (ground arith)
      | inl (_, valid) ↦
          elim (Bool-cases (any (λ x. x.request_id === r.request_id) db.authority_receipts)) [
            | inl taken ↦ absurd (ground arith)
            | inr fresh ↦
                let made : t ≡ record db { authority_receipts = db.authority_receipts ++ r ∷ [] } =
                  ground arith in
                (
                  rw (made, valid, find-end db.authority_receipts r fresh) refl,
                  rw (made, same, valid, any-end db.authority_receipts r) refl,
                )
          ]
    ]
