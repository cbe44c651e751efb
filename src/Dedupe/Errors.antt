-- ===== src/Dedupe/Errors.antt =====
-- What the checks on the candidates in discovery/dedupe.ts throw.
use vocation_os.Prelude.{
  ◌≡◌, inl, inr, Bool, true, false, Option, none, some, String, ok, err, arith, Result-cases,
  Result, guard, throw_if, ◌>>=◌, ◌>>◌,
}
use vocation_os.Runtime.{Platform}
use vocation_os.Dedupe.{
  WebRuntime, DedupeCandidate, DedupeOptions, DedupeError, candidate_unknown, cluster_corrupt,
  out_of_rounds, NormalizedCandidate, candidate_id_invalid, observation_id_invalid,
  source_record_id_invalid, provider_unknown, identity_incomplete, digest_invalid,
  posted_at_invalid, concept_id_invalid, minimum_invalid, same_candidate,
}
use vocation_os.Dedupe.Normal.{
  normalize_candidate, canonical_company_domain, canonical_identity_url, optional_url,
  check_candidate,
}
use vocation_os.Dedupe.Pair.{evaluate_dedupe_pair, adjacency_for}

-- What is thrown for the candidates' sake.
abbrev pub is_input_error : DedupeError → Bool
is_input_error candidate_unknown = false
is_input_error cluster_corrupt = false
is_input_error out_of_rounds = false
is_input_error _ = true

-- A run that throws does so for the candidates' sake.
abbrev pub OnlyInput : {A : Type 0} → Result DedupeError A → Type 0
OnlyInput m = (why : DedupeError) → m ≡ err why → is_input_error why ≡ true

eight_checks :
    (a b c d e f g h : Bool)
    → OnlyInput (
        guard a candidate_id_invalid
        >> (guard b observation_id_invalid
            >> (guard c source_record_id_invalid
                >> (guard d provider_unknown
                    >> (guard e identity_incomplete
                        >> (guard f digest_invalid
                            >> (guard g posted_at_invalid >> throw_if h concept_id_invalid)))))))
eight_checks a b c d e f g h why thrown = ground arith

last_checks :
    {A B : Type 0} (a b : Bool) (m : Result DedupeError A) (f : A → B)
    → OnlyInput m
    → OnlyInput (guard a minimum_invalid >> (m >>= λ s. throw_if b same_candidate >> ok (f s)))
last_checks false b m f only why h = ground arith
last_checks true b (err e) f only why h = only why (ground arith)
last_checks true false (ok s) f only why h = cc
last_checks true true (ok s) f only why h = ground arith

module _ (p : Platform) (w : WebRuntime) (options : DedupeOptions w.Score) where
  url-input_error :
      (s : String) (why : DedupeError)
      → canonical_identity_url p w s ≡ err why
      → is_input_error why ≡ true
  unfolding canonical_identity_url
  url-input_error s why h = ground arith

  domain-input_error :
      (s : Option String) (why : DedupeError)
      → canonical_company_domain p w s ≡ err why
      → is_input_error why ≡ true
  unfolding canonical_company_domain
  domain-input_error none why h = cc
  domain-input_error (some s) why h = ground arith

  optional-input_error : (s : Option String) → OnlyInput (optional_url p w s)
  optional-input_error none why h = cc
  optional-input_error (some url) why h = elim (Result-cases (canonical_identity_url p w url)) [
    | inr (e, failed) ↦ let i = url-input_error url e failed in ground arith
    | inl (v, z) ↦ absurd (ground arith)
  ]

  check-input_error : (c : DedupeCandidate) → OnlyInput (check_candidate p w c)
  unfolding check_candidate
  check-input_error c why h = eight_checks _ _ _ _ _ _ _ _ why h

  pub normalize-input_error : (c : DedupeCandidate) → OnlyInput (normalize_candidate p w c)
  unfolding normalize_candidate
  normalize-input_error c why h = elim (Result-cases (check_candidate p w c)) [
    | inr (e, failed) ↦ let i = check-input_error c e failed in ground arith
    | inl (_, passed) ↦ elim (Result-cases (canonical_company_domain p w c.company_domain)) [
      | inr (e, failed) ↦ let i = domain-input_error c.company_domain e failed in ground arith
      | inl (d, x) ↦ elim (Result-cases (canonical_identity_url p w c.canonical_url)) [
        | inr (e, failed) ↦ let i = url-input_error c.canonical_url e failed in ground arith
        | inl (u, y) ↦ elim (Result-cases (optional_url p w c.apply_url)) [
          | inr (e, failed) ↦ let i = optional-input_error c.apply_url e failed in ground arith
          | inl (v, z) ↦ absurd (ground arith)
        ]
      ]
    ]
  ]

  adjacency-input_error :
      (l r : NormalizedCandidate) (why : DedupeError)
      → adjacency_for p w l r options ≡ err why
      → is_input_error why ≡ true
  unfolding adjacency_for
  adjacency-input_error l r why h = ground arith

  pub evaluate-input_error :
      (l r : DedupeCandidate) → OnlyInput (evaluate_dedupe_pair p w options l r)
  unfolding evaluate_dedupe_pair
  evaluate-input_error l r why h = elim (Result-cases (normalize_candidate p w l)) [
    | inr (e, failed) ↦ let i = normalize-input_error l e failed in ground arith
    | inl (a, x) ↦ elim (Result-cases (normalize_candidate p w r)) [
      | inr (e, failed) ↦ let i = normalize-input_error r e failed in ground arith
      | inl (b, y) ↦ last_checks _ _ _ _ (adjacency-input_error a b) why (rw (x, y) at h)
    ]
  ]
