-- ===== src/Repository/Puts.antt =====
-- Puts of versioned records (storage/product-repositories.ts): what is read back, what a retry gives,
-- and which of two concurrent writers wins.
use vocation_os.Prelude.{
  ℕ, suc, ◌≡◌, ◌≢◌, ◌⊎◌, inl, inr, refl, true, false, List, [], ◌∷◌, ◌++◌, none, some, arith,
  length, find, ok, err, Result-cases, Option-cases, eq_iff, eq_refl,
}
use vocation_os.Runtime.{Platform}
use vocation_os.Repository.{
  VersionedDomainRecord, DomainDescriptor, EventStore, PutInput, is_active, last, version_of,
  done_by, value_hash_of, verify_record, put_record, put_event, history, get, put_fresh, put,
  is_identifier, is_operation_id, is_safe, version_conflict,
}
use vocation_os.Repository.History.{history-version, history-append, last-append, find-append_none}

module _ {T : Type 0} (p : Platform) (d : DomainDescriptor T) (es : EventStore T) where
  -- What a put has checked before it looks at the history.
  pub record IsWellFormed (input : PutInput T) : Type 0 where
    pub valid : d.validate input.value ≡ true
    pub named : is_identifier (d.id_of input.value) ≡ true
    pub safe : is_safe input.expected_version ≡ true
    pub identified : is_operation_id input.operation_id ≡ true

  -- A put that writes.
  pub record IsWritten (s t : es.Store) (input : PutInput T) (rs : List (VersionedDomainRecord T))
      (r : VersionedDomainRecord T) : Type 0 where
    pub fresh : find (done_by input.operation_id) rs ≡ none
    pub expected : version_of (last rs) ≡ input.expected_version
    pub record_of : r ≡ put_record p d input (version_of (last rs))
    pub verified : verify_record p d r ≡ ok tt
    pub appended : es.append s (put_event p d input r) ≡ some t

  -- A put that was made before.
  pub record IsReplayed (s t : es.Store) (input : PutInput T) (rs : List (VersionedDomainRecord T))
      (r : VersionedDomainRecord T) : Type 0 where
    pub found : find (done_by input.operation_id) rs ≡ some r
    pub same_hash : r.value_hash ≡ value_hash_of p d input.value
    pub still_active : is_active r.status ≡ true
    pub unchanged : t ≡ s

  fresh_lem :
      (s t : es.Store) (input : PutInput T) (current : ℕ) (r : VersionedDomainRecord T)
      → put_fresh p d es s input current ≡ ok (r, t)
      → (current ≡ input.expected_version)
        × (r ≡ put_record p d input current)
        × (verify_record p d r ≡ ok tt)
        × (es.append s (put_event p d input r) ≡ some t)
  unfolding put_fresh
  fresh_lem s t input current r h =
      elim (Result-cases (verify_record p d (put_record p d input current))) [
        | inr (x, f) ↦ absurd (ground arith)
        | inl (_, f) ↦
            elim (Option-cases (es.append s (put_event p d input (put_record p d input current)))) [
              | inl n ↦ absurd (ground arith)
              | inr (u, a) ↦
                  let same : r ≡ put_record p d input current = ground arith in
                  let store : u ≡ t = ground arith in
                  (ground arith, same, rw same f, rw same (rw (← store) a))
            ]
      ]

  pub put_lem :
      (s t : es.Store) (input : PutInput T) (r : VersionedDomainRecord T)
      → put p d es s input ≡ ok (r, t)
      → IsWellFormed input
        × ((rs : List (VersionedDomainRecord T)) × (history p d es s (d.id_of input.value) ≡ ok rs)
            × (IsWritten s t input rs r ⊎ IsReplayed s t input rs r))
  unfolding put
  put_lem s t input r h =
      let formed : IsWellFormed input = record {
        valid = ground arith;
        named = ground arith;
        safe = ground arith;
        identified = ground arith;
      } in
      elim (Result-cases (history p d es s (d.id_of input.value))) [
        | inr (x, f) ↦ absurd (ground arith)
        | inl (rs, f) ↦ (
          formed,
          (
            rs,
            f,
            elim (Option-cases (find (done_by input.operation_id) rs)) [
              | inl n ↦
                  let written : put_fresh p d es s input (version_of (last rs)) ≡ ok (r, t) =
                    ground arith in
                  let (e, q, v, a) = fresh_lem s t input (version_of (last rs)) r written in
                  inl
                    (record { fresh = n; expected = e; record_of = q; verified = v; appended = a })
              | inr (u, n) ↦
                  let same : u ≡ r = ground arith in
                  inr (record {
                    found = rw (← same) n;
                    same_hash = ground (arith, eq_iff u.value_hash (value_hash_of p d input.value));
                    still_active = ground arith;
                    unchanged = ground arith;
                  })
            ],
          ),
        )
      ]

  -- The other direction, for a put of an id with a known history.
  module _ (s : es.Store) (input : PutInput T) (rs : List (VersionedDomainRecord T))
      (formed : IsWellFormed input) (known : history p d es s (d.id_of input.value) ≡ ok rs) where
    put_again :
        (r : VersionedDomainRecord T)
        → find (done_by input.operation_id) rs ≡ some r
        → r.value_hash ≡ value_hash_of p d input.value
        → is_active r.status ≡ true
        → put p d es s input ≡ ok (r, s)
    unfolding put
    put_again r f h a = ground (
      arith,
      formed.valid,
      formed.named,
      formed.safe,
      formed.identified,
      eq_iff r.value_hash (value_hash_of p d input.value),
    )

    put_late :
        find (done_by input.operation_id) rs ≡ none
        → version_of (last rs) ≢ input.expected_version
        → put p d es s input ≡ err (version_conflict input.expected_version (version_of (last rs)))
    unfolding put put_fresh
    put_late f n = ground (arith, formed.valid, formed.named, formed.safe, formed.identified)

  -- The history after a put that writes.
  written_history :
      (s t : es.Store) (input : PutInput T) (rs : List (VersionedDomainRecord T))
      (r : VersionedDomainRecord T)
      → history p d es s (d.id_of input.value) ≡ ok rs
      → IsWritten s t input rs r
      → es.ReadsBack s (put_event p d input r)
      → history p d es t (d.id_of input.value) ≡ ok (rs ++ r ∷ [])
  unfolding put_event put_record
  written_history s t input rs r known w back =
      let counted : version_of (last rs) ≡ length rs =
        history-version p d es s (d.id_of input.value) rs known in
      let next : r.version ≡ suc (length rs) = rw w.record_of (omega (arith, counted)) in
      history-append p d es s t (put_event p d input r) rs refl w.appended back known w.verified
        next refl

  put_record-done_by :
      (input : PutInput T) (current : ℕ)
      → done_by input.operation_id (put_record p d input current) ≡ true
  unfolding put_record
  put_record-done_by input current = ground (arith, eq_refl input.operation_id)

  -- After a put whose operation id is new in the history of its record, and whose event the store can
  -- read back, `get` shows the record that was put: it carries the value, and its version is one above the version that the writer expected.
  pub put-get :
      (s t : es.Store) (input : PutInput T) (rs : List (VersionedDomainRecord T))
      (r : VersionedDomainRecord T)
      → put p d es s input ≡ ok (r, t)
      → es.ReadsBack s (put_event p d input r)
      → history p d es s (d.id_of input.value) ≡ ok rs
      → find (done_by input.operation_id) rs ≡ none
      → (get p d es t (d.id_of input.value) false ≡ ok (some r))
        × (r.value ≡ input.value)
        × (r.version ≡ suc input.expected_version)
  unfolding get put_record
  put-get s t input rs r h back known new =
      let (formed, (us, found, how)) = put_lem s t input r h in
      let same : us ≡ rs = ground arith in
      elim how [
        | inr q ↦ absurd (let f = q.found in ground arith)
        | inl w ↦
            let after : history p d es t (d.id_of input.value) ≡ ok (us ++ r ∷ []) =
              written_history s t input us r found w back in
            let value_of : r.value ≡ input.value = rw w.record_of refl in
            let version_is : r.version ≡ suc input.expected_version =
              rw w.record_of (omega (arith, w.expected)) in
            let up : is_active r.status ≡ true = rw w.record_of refl in
            (ground (arith, last-append us r), value_of, version_is)
      ]

  -- A put that succeeded, and whose event the store can read back, can be retried: with the same value and operation id it gives the same
  -- record and leaves the store as it is, whatever safe version, event id and time it names.
  pub put-put :
      (s t : es.Store) (input again : PutInput T) (r : VersionedDomainRecord T)
      → put p d es s input ≡ ok (r, t)
      → es.ReadsBack s (put_event p d input r)
      → again.value ≡ input.value
      → again.operation_id ≡ input.operation_id
      → is_safe again.expected_version ≡ true
      → put p d es t again ≡ ok (r, t)
  unfolding put_record
  put-put s t input again r h back v o safe =
      let (formed, (rs, found, how)) = put_lem s t input r h in
      let good : IsWellFormed again = record {
        valid = rw v formed.valid;
        named = rw v formed.named;
        safe = safe;
        identified = rw o formed.identified;
      } in
      elim how [
        | inr q ↦ rw q.unchanged (
            put_again s again rs good (rw v found) r (rw o q.found) (rw v q.same_hash)
              q.still_active)
        | inl w ↦
            let mine : done_by input.operation_id r ≡ true =
              rw w.record_of (put_record-done_by input (version_of (last rs))) in
            let there : find (done_by input.operation_id) (rs ++ r ∷ []) ≡ some r =
              rw (find-append_none (done_by input.operation_id) rs r w.fresh, mine) refl in
            put_again t again (rs ++ r ∷ []) good
              (rw v (written_history s t input rs r found w back)) r (rw o there)
              (rw v (rw w.record_of refl)) (rw w.record_of refl)
      ]

  -- Of two writers that expect the same version of a record, the first one wins: after its put, a
  -- well-formed put of another operation that still expects that version is refused as a version
  -- conflict. Both operation ids are new in the history of the record, and the store can read back the
  -- event of the first put.
  pub put-conflict :
      (s t : es.Store) (input late : PutInput T) (rs : List (VersionedDomainRecord T))
      (r : VersionedDomainRecord T)
      → put p d es s input ≡ ok (r, t)
      → es.ReadsBack s (put_event p d input r)
      → history p d es s (d.id_of input.value) ≡ ok rs
      → find (done_by input.operation_id) rs ≡ none
      → IsWellFormed late
      → d.id_of late.value ≡ d.id_of input.value
      → late.expected_version ≡ input.expected_version
      → find (done_by late.operation_id) rs ≡ none
      → late.operation_id ≢ input.operation_id
      → put p d es t late ≡ err (version_conflict late.expected_version (suc late.expected_version))
  unfolding put_record
  put-conflict s t input late rs r h back known new good id expects unused other =
      let (formed, (us, found, how)) = put_lem s t input r h in
      let same : us ≡ rs = ground arith in
      elim how [
        | inr q ↦ absurd (let f = q.found in ground arith)
        | inl w ↦
            let after : history p d es t (d.id_of late.value) ≡ ok (us ++ r ∷ []) =
              rw id (written_history s t input us r found w back) in
            let not_mine : done_by late.operation_id r ≡ false =
              rw w.record_of (ground (arith, eq_iff input.operation_id late.operation_id)) in
            let unused_before : find (done_by late.operation_id) us ≡ none = rw same unused in
            let unused_after : find (done_by late.operation_id) (us ++ r ∷ []) ≡ none =
              rw (find-append_none (done_by late.operation_id) us r unused_before, not_mine) refl in
            let version_is : version_of (last (us ++ r ∷ [])) ≡ suc late.expected_version =
              rw (last-append us r, w.record_of) (omega (arith, w.expected, expects)) in
            rw (← version_is)
              (put_late t late (us ++ r ∷ []) good after unused_after (omega (arith, version_is)))
      ]
