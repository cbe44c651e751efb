-- ===== src/Dedupe.antt =====
-- The data of discovery/dedupe.ts. A score of the taxonomy is a double, of an abstract type.
pub mod Normal
pub mod Pair
pub mod Sets
pub mod Clusters
pub mod Rooted
pub mod Joined
pub mod Merged
pub mod Checked
pub mod Sound
pub mod Linked
pub mod Grouped
pub mod Runs
pub mod Deduplicated
pub mod Errors
pub mod Total
use Prim.Native.Char.{Char, code}
use Prim.Native.String
use vocation_os.Prelude.{
  ℕ, ◌+◌, Bool, true, false, not, ◌&&◌, ◌||◌, List, [], ◌∷◌, map, Option, none, some, String, ltb,
  leb, ◌==◌, ◌===◌, if◌then◌else◌, length, includes, keep, any, all, drop, Result, ok, err, ◌>>=◌,
  ◌>>◌, guard, throw_if, or_throw, is_some, ◌≡◌, refl, arith, >>=-ok_parts, guard-passed,
  Result-cases, is_empty, sort_by, unique,
}
use vocation_os.Runtime.{Platform}
use vocation_os.Hash.{Json, ◌+++◌}
use vocation_os.Text.{trim, is_truthy, codes, utf16_length, slice_from, normalize_space}
use vocation_os.Patterns.{
  begins, contains, is_id_codes, is_observation_id, is_digest, is_domain, ends_with_dot,
}

-- `URL`, as far as the code reads and writes it.
pub record Url : Type 0 where
  pub protocol : String
  pub username : String
  pub password : String
  pub hostname : String
  pub port : String
  pub pathname : String
  pub search : String
  pub hash : String
  pub search_params : List (String × String)

-- What the code takes from the runtime beside the platform.
pub record WebRuntime : Type 1 where
  -- `new URL(s)`, `none` where it throws
  pub parse_url : String → Option Url
  -- `url.toString()`, of a URL whose fields were set so: an empty path is written `/`
  pub print_url : Url → String
  -- `s.normalize("NFKC")`
  pub nfkc : String → String
  pub to_lower_case : String → String
  pub to_upper_case : String → String
  -- `[\p{L}\p{N}]`
  pub is_letter_or_number : ℕ → Bool
  -- `left < right`
  pub text_lt : String → String → Bool
  -- The doubles that stand for scores: `0.5`, `Number.isFinite(s) && s >= 0 && s <= 1`,
  -- `Number(s.toFixed(4))` and `s >= t`.
  pub Score : Type 0
  pub half : Score
  pub in_unit : Score → Bool
  pub to_fixed : Score → Score
  pub at_least : Score → Score → Bool
  pub score_json : Score → Json

pub record DedupeCandidate : Type 0 where
  pub candidate_id : String
  pub observation_id : String
  pub provider_id : String
  pub source_record_id : String
  pub canonical_url : String
  pub apply_url : Option String
  pub company : String
  pub company_domain : Option String
  pub role_title : String
  pub location : String
  pub posted_at : Option String
  pub description_digest : Option String
  pub taxonomy_concept_ids : List String

pub record NormalizedCandidate : Type 0 where
  pub source : DedupeCandidate
  pub company : String
  pub role_title : String
  pub location : String
  pub company_domain : Option String
  pub canonical_url : String
  pub apply_url : Option String
  pub taxonomy_concept_ids : List String

pub data DedupeOutcome : Type 0 where
  merge review distinct : DedupeOutcome

pub data DedupeReason : Type 0 where
  same_provider_record same_application_endpoint same_canonical_posting : DedupeReason
  same_content_provenance provider_record_conflict company_domain_conflict : DedupeReason
  cluster_identity_conflict taxonomy_adjacent_role identity_evidence_insufficient : DedupeReason
  material_identity_mismatch : DedupeReason

pub record DedupeDecision (S : Type 0) : Type 0 where
  pub left_candidate_id : String
  pub right_candidate_id : String
  pub outcome : DedupeOutcome
  pub reason : DedupeReason
  pub company_domain_match : Option Bool
  pub taxonomy_adjacency : Option S

pub record DedupeOptions (S : Type 0) : Type 0 where
  pub taxonomy_adjacency : Option (List String → List String → Option S)
  pub minimum_review_adjacency : Option S

-- The tables of a disjoint set are followed for a bounded number of rounds: `out_of_rounds` stands
-- for a search that takes more.
pub data DedupeError : Type 0 where
  candidate_id_invalid observation_id_invalid source_record_id_invalid : DedupeError
  provider_unknown identity_incomplete digest_invalid posted_at_invalid : DedupeError
  concept_id_invalid company_domain_invalid url_invalid url_not_allowed : DedupeError
  minimum_invalid adjacency_invalid same_candidate candidate_unknown : DedupeError
  candidates_not_unique cluster_corrupt out_of_rounds : DedupeError

abbrev pub Outcome : Type 0 → Type 0
Outcome A = Result DedupeError A

-- `DISCOVERY_PROVIDER_MANIFESTS`, by their ids.
abbrev pub provider_ids : List String
provider_ids =
    "greenhouse" ∷ "lever" ∷ "ashby" ∷ "workable" ∷ "workday" ∷ "smartrecruiters" ∷ "teamtailor"
    ∷ "bamboohr" ∷ "breezy-hr" ∷ "recruitee" ∷ "personio" ∷ "schema-org-job-posting" ∷ "comeet"
    ∷ "pinpoint" ∷ "jazzhr" ∷ "rippling" ∷ "zoho-recruit" ∷ "freshteam" ∷ "recruit-crm"
    ∷ "oracle-recruiting" ∷ "sap-successfactors" ∷ "taleo" ∷ "adp-workforce-now" ∷ "ukg-pro"
    ∷ "dayforce" ∷ "usajobs" ∷ "eures" ∷ "euraxess" ∷ "nhs-jobs" ∷ "remote-ok" ∷ "remotive"
    ∷ "we-work-remotely" ∷ "arbeitnow" ∷ "jobicy" ∷ "jobvite" ∷ "icims" ∷ []

-- `left === right` for two values that may be null.
abbrev pub same_text : Option String → Option String → Bool
same_text none none = true
same_text (some s) (some t) = s === t
same_text _ _ = false
