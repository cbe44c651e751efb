-- ===== src/Repository/History.antt =====
-- The history of one record (storage/product-repositories.ts): what a put and an archiving add.
use vocation_os.Prelude.{
  ℕ, suc, ◌+◌, ◌≡◌, inl, inr, refl, Bool, true, List, [], ◌∷◌, ◌++◌, none, some, String, arith,
  length, find, ok, Result-cases, Option-cases, Bool-cases, if◌then◌else◌, eq_iff, ap,
}
use vocation_os.Runtime.{Platform}
use vocation_os.Repository.{
  VersionedDomainRecord, DomainEvent, DomainPayload, payload_of, DomainDescriptor, EventStore, last,
  version_of, verify_record, records_from, history, aggregate_type_of, is_identifier,
}

module _ {ℓ} {A : Type ℓ} where
  last_cons : (x : A) (xs : List A) (a : A) → last xs ≡ some a → last (x ∷ xs) ≡ some a
  last_cons x [] a h = cc
  last_cons x (y ∷ ys) a h = h

  last-eq-none : (xs : List A) → last xs ≡ none → xs ≡ []
  last-eq-none [] h = refl
  last-eq-none (x ∷ []) h = cc
  last-eq-none (x ∷ y ∷ ys) h = let e : y ∷ ys ≡ [] = last-eq-none (y ∷ ys) h in cc

  pub last-append : (xs : List A) (a : A) → last (xs ++ a ∷ []) ≡ some a
  last-append [] a = refl
  last-append (x ∷ []) a = refl
  last-append (x ∷ y ∷ ys) a = last-append (y ∷ ys) a

  pub find-append_none :
      (q : A → Bool) (xs : List A) (a : A)
      → find q xs ≡ none
      → find q (xs ++ a ∷ []) ≡ (if q a then some a else none)
  find-append_none q [] a h = refl
  find-append_none q (x ∷ xs) a h = elim (Bool-cases (q x)) [
    | inl e ↦ absurd (ground arith)
    | inr e ↦
        let rest : find q xs ≡ none = ground arith in rw (e, find-append_none q xs a rest) refl
  ]

module _ {T : Type 0} (p : Platform) (d : DomainDescriptor T) where
  module _ (index : ℕ) (e : DomainPayload T) (es : List (DomainPayload T)) where
    records_cons :
        (rs : List (VersionedDomainRecord T))
        → verify_record p d e.stored ≡ ok tt
        → e.stored.version ≡ suc index
        → e.response.value_hash ≡ e.stored.value_hash
        → records_from p d (suc index) es ≡ ok rs
        → records_from p d index (e ∷ es) ≡ ok (e.stored ∷ rs)
    unfolding records_from
    records_cons rs v n h r = ground (arith, eq_iff e.response.value_hash e.stored.value_hash)

    records_uncons :
        (rs : List (VersionedDomainRecord T))
        → records_from p d index (e ∷ es) ≡ ok rs
        → (us : List (VersionedDomainRecord T)) × (verify_record p d e.stored ≡ ok tt)
          × (e.stored.version ≡ suc index)
          × (e.response.value_hash ≡ e.stored.value_hash)
          × (records_from p d (suc index) es ≡ ok us)
          × (rs ≡ e.stored ∷ us)
    unfolding records_from
    records_uncons rs h = elim (Result-cases (records_from p d (suc index) es)) [
      | inr (x, f) ↦ absurd (ground arith)
      | inl (us, f) ↦ (
        us,
        ground arith,
        ground arith,
        ground (arith, eq_iff e.response.value_hash e.stored.value_hash),
        f,
        ground arith,
      )
    ]

  records_nil :
      (index : ℕ) (rs : List (VersionedDomainRecord T))
      → records_from p d index [] ≡ ok rs
      → rs ≡ []
  unfolding records_from
  records_nil index rs h = ground arith

  records_from-append :
      (index : ℕ) (es : List (DomainPayload T)) (e : DomainPayload T)
      (rs : List (VersionedDomainRecord T))
      → records_from p d index es ≡ ok rs
      → verify_record p d e.stored ≡ ok tt
      → e.stored.version ≡ suc (index + length rs)
      → e.response.value_hash ≡ e.stored.value_hash
      → records_from p d index (es ++ e ∷ []) ≡ ok (rs ++ e.stored ∷ [])
  unfolding records_from
  records_from-append index [] e rs f v n h =
      let nothing : rs ≡ [] = records_nil index rs f in
      let first : e.stored.version ≡ suc index = ground arith in
      rw nothing (records_cons index e [] [] v first h refl)
  records_from-append index (x ∷ es) e rs f v n h =
      let (us, vx, nx, hx, g, cut) = records_uncons index x es rs f in
      let next : e.stored.version ≡ suc (suc index + length us) = ground arith in
      rw cut (
        records_cons index x (es ++ e ∷ []) (us ++ e.stored ∷ []) vx nx hx
          (records_from-append (suc index) es e us g v next h))

  -- The version of the latest record counts the records.
  version_of-last :
      (index : ℕ) (es : List (DomainPayload T)) (rs : List (VersionedDomainRecord T))
      (r : VersionedDomainRecord T)
      → records_from p d index es ≡ ok rs
      → last rs ≡ some r
      → r.version ≡ index + length rs
  version_of-last index [] rs r h l =
      let nothing : rs ≡ [] = records_nil index rs h in absurd (ground arith)
  version_of-last index (x ∷ es) rs r h l =
      let (us, vx, nx, hx, g, cut) = records_uncons index x es rs h in
      elim (Option-cases (last us)) [
        | inl e ↦ let alone : us ≡ [] = last-eq-none us e in ground arith
        | inr (u, e) ↦
            let v : u.version ≡ suc index + length us = version_of-last (suc index) es us u g e in
            let same : last (x.stored ∷ us) ≡ some u = last_cons x.stored us u e in
            let latest : last (x.stored ∷ us) ≡ some r = rw (← cut) l in ground arith
      ]

  versions_counted :
      (es : List (DomainPayload T)) (rs : List (VersionedDomainRecord T))
      → records_from p d 0 es ≡ ok rs
      → version_of (last rs) ≡ length rs
  versions_counted es rs h = elim (Option-cases (last rs)) [
    | inl e ↦ let nothing : rs ≡ [] = last-eq-none rs e in ground arith
    | inr (r, e) ↦ let v : r.version ≡ 0 + length rs = version_of-last 0 es rs r h e in ground arith
  ]

  module _ (es : EventStore T) where
    history_lem :
        (s : es.Store) (id : String) (rs : List (VersionedDomainRecord T))
        → history p d es s id ≡ ok rs
        → (is_identifier id ≡ true)
          × ((events : List (DomainPayload T)) × (es.read_aggregate s (aggregate_type_of p d) id
                ≡ some events)
              × (records_from p d 0 events ≡ ok rs))
    unfolding history
    history_lem s id rs h = elim (Option-cases (es.read_aggregate s (aggregate_type_of p d) id)) [
      | inl refused ↦ absurd (ground arith)
      | inr (events, read) ↦ (ground arith, (events, read, ground arith))
    ]

    pub history-version :
        (s : es.Store) (id : String) (rs : List (VersionedDomainRecord T))
        → history p d es s id ≡ ok rs
        → version_of (last rs) ≡ length rs
    history-version s id rs h =
        let (_, (events, _, found)) = history_lem s id rs h in versions_counted events rs found

    -- A valid event with the next version extends the history of its id.
    pub history-append :
        (s t : es.Store) (e : DomainEvent T) (rs : List (VersionedDomainRecord T))
        → e.aggregate_type ≡ aggregate_type_of p d
        → es.append s e ≡ some t
        → es.ReadsBack s e
        → history p d es s e.aggregate_id ≡ ok rs
        → verify_record p d e.stored ≡ ok tt
        → e.stored.version ≡ suc (length rs)
        → e.response ≡ e.stored
        → history p d es t e.aggregate_id ≡ ok (rs ++ e.stored ∷ [])
    unfolding history
    history-append s t e rs ours added back known valid n same =
        let (named, (before, read, found)) = history_lem s e.aggregate_id rs known in
        let grown : es.read_aggregate t (aggregate_type_of p d) e.aggregate_id
            ≡ some (before ++ payload_of e ∷ []) =
          rw (← ours) (es.read_own s t e before added back (rw ours read)) in
        let next : e.stored.version ≡ suc (0 + length rs) = omega (arith, n) in
        let whole : records_from p d 0 (before ++ payload_of e ∷ []) ≡ ok (rs ++ e.stored ∷ []) =
          records_from-append 0 before (payload_of e) rs found valid next
            (ap (λ r. r.value_hash) same) in
        rw (named, grown) whole
