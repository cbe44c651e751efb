-- ===== src/Dedupe/Normal.antt =====
-- discovery/dedupe.ts: `normalizeCandidate`.
use Prim.Native.Char.{code}
use Prim.Native.String
use vocation_os.Prelude.{
  Bool, true, false, not, ◌&&◌, ◌||◌, List, [], ◌∷◌, map, Option, none, some, String, ltb, leb,
  ◌==◌, ◌===◌, if◌then◌else◌, includes, keep, any, ok, ◌>>=◌, ◌>>◌, guard, throw_if, or_throw, ◌≡◌,
  arith, sort_by, unique,
}
use vocation_os.Runtime.{Platform}
use vocation_os.Hash.{◌+++◌}
use vocation_os.Text.{trim, is_truthy, codes, utf16_length, slice_from, normalize_space}
use vocation_os.Patterns.{
  begins, contains, is_id_codes, is_observation_id, is_digest, is_domain, ends_with_dot,
}
use vocation_os.Dedupe.{
  WebRuntime, DedupeCandidate, NormalizedCandidate, Outcome, provider_ids, candidate_id_invalid,
  observation_id_invalid, source_record_id_invalid, provider_unknown, identity_incomplete,
  digest_invalid, posted_at_invalid, concept_id_invalid, company_domain_invalid, url_invalid,
  url_not_allowed,
}

module _ (p : Platform) (w : WebRuntime) where
  open w use {
    parse_url, print_url, nfkc, to_lower_case, is_letter_or_number, text_lt, Score, in_unit,
    to_fixed, at_least,
  }

  -- `s.replace(/[^\p{L}\p{N}]+/gu, " ")`; `blank` says that the last one written is such a blank.
  blank_runs : Bool → String → String
  blank_runs blank String.[] = ""
  blank_runs blank (String.◌∷◌ c s) =
      let skipped = blank_runs true s in
      let kept = blank_runs false s in
      if is_letter_or_number (code c)
      then String.◌∷◌ c kept
      else (if blank then skipped else String.◌++◌ " " skipped)

  -- `normalizeIdentityText`
  unfoldable pub normalize_identity_text : String → String
  unfolding blank_runs
  normalize_identity_text s = normalize_space (blank_runs false (to_lower_case (nfkc s)))

  -- `pathname.replace(/\/+$/, "")`
  drop_slashes : String → String
  drop_slashes String.[] = ""
  drop_slashes (String.◌∷◌ c s) =
      let rest = drop_slashes s in
      if rest === "" then (if code c == 47 then "" else String.◌∷◌ c "") else String.◌∷◌ c rest

  abbrev is_tracking : String × String → Bool
  is_tracking (k, v) =
      begins "utm_" (to_lower_case k)
      || includes ("referrer" ∷ "lever-source" ∷ []) (to_lower_case k)

  -- `canonicalIdentityUrl`
  unfoldable pub canonical_identity_url : String → Outcome String
  unfolding drop_slashes begins ends_with_dot
  canonical_identity_url value = do
    url ← or_throw (parse_url value) url_invalid
    throw_if (not (url.protocol === "https:") || is_truthy url.username || is_truthy url.password)
        url_not_allowed
    throw_if (ends_with_dot url.hostname) url_not_allowed
    ok (
        print_url (record url {
          hash = "";
          search_params =
              sort_by (λ x y. not (text_lt (y.0) (x.0)))
                (keep (λ x. not (is_tracking x)) url.search_params);
          pathname =
              if leb 2 (utf16_length url.pathname) then drop_slashes url.pathname else url.pathname;
        }))

  -- `canonicalCompanyDomain`
  unfoldable pub canonical_company_domain : Option String → Outcome (Option String)
  unfolding contains is_domain begins ends_with_dot
  canonical_company_domain none = ok none
  canonical_company_domain (some value) = do
    url ←
        or_throw (parse_url (if contains "://" value then value else "https://" +++ value))
          company_domain_invalid
    throw_if
        (not (url.protocol === "https:")
          || is_truthy url.username
          || is_truthy url.password
          || is_truthy url.port
          || not (url.pathname === "/")
          || is_truthy url.search
          || is_truthy url.hash)
        company_domain_invalid
    let host = to_lower_case url.hostname
    let hostname = if begins "www." host then slice_from 4 host else host
    throw_if (ends_with_dot hostname || not (is_domain hostname)) company_domain_invalid
    ok (some hostname)

  abbrev is_posted_at : Option String → Bool
  is_posted_at none = true
  is_posted_at (some at) = elim (p.parse_date at) [
    | none ↦ false
    | some t ↦ p.to_iso_string t === at
  ]

  abbrev concept_ids : List String → List String
  concept_ids ids =
      sort_by (λ x y. not (text_lt y x)) (keep is_truthy (unique (λ x y. x === y) (map trim ids)))

  abbrev pub optional_url : Option String → Outcome (Option String)
  optional_url none = ok none
  optional_url (some url) = canonical_identity_url url >>= λ canonical. ok (some canonical)

  -- The checks of `normalizeCandidate` on the fields.
  unfoldable pub check_candidate : DedupeCandidate → Outcome (Unit {0})
  unfolding is_observation_id is_digest
  check_candidate c = do
    guard (is_id_codes (codes c.candidate_id)) candidate_id_invalid
    guard (is_observation_id c.observation_id) observation_id_invalid
    guard (is_truthy (trim c.source_record_id) && leb (utf16_length c.source_record_id) 512)
        source_record_id_invalid
    guard (includes provider_ids c.provider_id) provider_unknown
    guard
        (is_truthy (normalize_identity_text c.company)
          && is_truthy (normalize_identity_text c.role_title))
        identity_incomplete
    guard (elim c.description_digest [ none ↦ true | some d ↦ is_digest d ]) digest_invalid
    guard (is_posted_at c.posted_at) posted_at_invalid
    throw_if
        (any (λ id. ltb 512 (utf16_length id) || any (λ u. u == 0) (codes id))
          (concept_ids c.taxonomy_concept_ids))
        concept_id_invalid

  -- `normalizeCandidate`
  unfoldable pub normalize_candidate : DedupeCandidate → Outcome NormalizedCandidate
  unfolding check_candidate
  normalize_candidate c = do
    check_candidate c
    domain ← canonical_company_domain c.company_domain
    url ← canonical_identity_url c.canonical_url
    apply ← optional_url c.apply_url
    ok (record {
      source = c;
      company = normalize_identity_text c.company;
      role_title = normalize_identity_text c.role_title;
      location = normalize_identity_text c.location;
      company_domain = domain;
      canonical_url = url;
      apply_url = apply;
      taxonomy_concept_ids = concept_ids c.taxonomy_concept_ids;
    })

  pub normalize_candidate-source :
      (c : DedupeCandidate) (n : NormalizedCandidate) → normalize_candidate c ≡ ok n → n.source ≡ c
  unfolding normalize_candidate
  normalize_candidate-source c n h = ground arith
