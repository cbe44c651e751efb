-- ===== src/Examples/Duplicates.antt =====
-- Three records of opportunities, run through discovery/dedupe.ts: the first two are one, and the third
-- is the second but for its provider, which has the first under another id.
use vocation_os.Prelude.{
  ℕ, Bool, true, false, List, [], ◌∷◌, none, some, String, ltb, leb, ◌==◌, ◌≡◌, ◌≢◌, ◌⊎◌, ◌↔◌, refl,
  if◌then◌else◌, includes, Result, ok, err, map, arith, eq_iff, insert_by, sort_by, unique,
}
use mathlib.Core.List.{Memᴰ}
use vocation_os.Hash.{quote, sha256, stable_stringify, stringify, num}
use vocation_os.Text.{
  trim, utf16_length, normalize_space, slice_start, slice_from, codes, decimal, is_alphanumeric,
}
use vocation_os.Dedupe.{Url, WebRuntime, DedupeCandidate, DedupeOptions, candidates_not_unique}
use vocation_os.Dedupe.Normal.{
  check_candidate, normalize_candidate, normalize_identity_text, canonical_company_domain,
  canonical_identity_url,
}
use vocation_os.Dedupe.Pair.{
  is_hard_identity_conflict, adjacency_for, pair_decision, pair_rule, same_record_rule,
  same_role_rule, evaluate_dedupe_pair,
}
use vocation_os.Dedupe.Clusters.{
  pairs_of, decide_pair, clusters_have_hard_identity_conflict, add_to_group, any_conflicts,
  conflicts_with_any, decide_pairs, dedupe_cluster, dedupe_result, group_by_root, DedupeCluster,
  DedupeResult, deduplicate_candidates,
}
use vocation_os.Dedupe.Linked.{Linked}
use vocation_os.Dedupe.Deduplicated.{
  IsCompatible, deduplicate_candidates-IsCompatible, deduplicate_candidates-Linked,
}
use vocation_os.Dedupe.Sets.{
  cluster_members, union, add_all, find_root, join_found, join_roots, new_disjoint_set, with_entry,
}
use vocation_os.Patterns.{
  begins, contains, ends_with_dot, is_digest, is_domain, is_observation_id, split_codes,
}
use vocation_os.Dedupe.Total.{deduplicate_candidates-input_error}
use vocation_os.Dedupe.Errors.{is_input_error}
use vocation_os.Examples.Base.{platform}

abbrev code_lt : List ℕ → List ℕ → Bool
code_lt xs [] = false
code_lt [] (y ∷ ys) = true
code_lt (x ∷ xs) (y ∷ ys) =
    let rest = code_lt xs ys in if ltb x y then true else if x == y then rest else false

abbrev plain_url : String → Url
plain_url s = record {
  protocol = "https:";
  username = "";
  password = "";
  hostname = s;
  port = "";
  pathname = "/";
  search = "";
  hash = "";
  search_params = [];
}

-- Scores are ten-thousandths, and every text is the host of a URL.
abbrev web : WebRuntime
web = record {
  parse_url = λ s. some (plain_url s);
  print_url = λ url. url.hostname;
  nfkc = λ s. s;
  to_lower_case = λ s. s;
  to_upper_case = λ s. s;
  is_letter_or_number = is_alphanumeric;
  text_lt = λ s t. code_lt (codes s) (codes t);
  Score = ℕ;
  half = 5_000;
  in_unit = λ n. leb n 10_000;
  to_fixed = λ n. n;
  at_least = λ a b. leb b a;
  score_json = λ n. num (decimal n);
}

abbrev no_options : DedupeOptions ℕ
no_options = record { taxonomy_adjacency = none; minimum_review_adjacency = none }

abbrev greenhouse_7 : DedupeCandidate
greenhouse_7 = record {
  candidate_id = "A1";
  observation_id = "OBS-0123456789ABCDEF0123456789ABCDEF";
  provider_id = "greenhouse";
  source_record_id = "7";
  canonical_url = "jobs.example";
  apply_url = none;
  company = "acme";
  company_domain = none;
  role_title = "engineer";
  location = "oslo";
  posted_at = none;
  description_digest = none;
  taxonomy_concept_ids = [];
}

abbrev lever_9 : DedupeCandidate
lever_9 = record greenhouse_7 { candidate_id = "B2"; provider_id = "lever"; source_record_id = "9" }

abbrev greenhouse_8 : DedupeCandidate
greenhouse_8 = record greenhouse_7 { candidate_id = "C3"; source_record_id = "8" }

abbrev three : List DedupeCandidate
three = greenhouse_8 ∷ greenhouse_7 ∷ lever_9 ∷ []

abbrev result_or : {E A : Type 0} → A → Result E A → A
result_or a (ok b) = b
result_or a (err e) = a

abbrev no_result : DedupeResult ℕ
no_result = record { result_id = ""; clusters = []; decisions = [] }

abbrev deduplicated : DedupeResult ℕ
deduplicated = result_or no_result (deduplicate_candidates platform web no_options three)

clusters_found :
    map (λ c. c.member_candidate_ids) deduplicated.clusters ≡ ("A1" ∷ "B2" ∷ []) ∷ ("C3" ∷ []) ∷ []
unfolding deduplicate_candidates evaluate_dedupe_pair check_candidate unique sort_by insert_by
    normalize_candidate normalize_identity_text canonical_company_domain canonical_identity_url
    is_hard_identity_conflict adjacency_for pair_decision pair_rule same_record_rule same_role_rule
    trim utf16_length normalize_space slice_start slice_from pairs_of decide_pair
    clusters_have_hard_identity_conflict add_to_group any_conflicts conflicts_with_any decide_pairs
    dedupe_cluster dedupe_result group_by_root cluster_members union add_all find_root join_found
    join_roots new_disjoint_set with_entry quote sha256 stable_stringify stringify begins contains
    ends_with_dot is_digest is_domain is_observation_id split_codes
clusters_found = refl

ran : deduplicate_candidates platform web no_options three ≡ ok deduplicated
unfolding deduplicate_candidates evaluate_dedupe_pair check_candidate unique sort_by insert_by
    normalize_candidate normalize_identity_text canonical_company_domain canonical_identity_url
    is_hard_identity_conflict adjacency_for pair_decision pair_rule same_record_rule same_role_rule
    trim utf16_length normalize_space slice_start slice_from pairs_of decide_pair
    clusters_have_hard_identity_conflict add_to_group any_conflicts conflicts_with_any decide_pairs
    dedupe_cluster dedupe_result group_by_root cluster_members union add_all find_root join_found
    join_roots new_disjoint_set with_entry quote sha256 stable_stringify stringify begins contains
    ends_with_dot is_digest is_domain is_observation_id split_codes
ran = refl

abbrev pair_cluster : DedupeCluster
pair_cluster = record {
  cluster_id = "DUP-[\"A1\",\"B2\"]";
  member_candidate_ids = "A1" ∷ "B2" ∷ [];
}

pair_found : Memᴰ pair_cluster deduplicated.clusters
unfolding deduplicate_candidates evaluate_dedupe_pair check_candidate unique sort_by insert_by
    normalize_candidate normalize_identity_text canonical_company_domain canonical_identity_url
    is_hard_identity_conflict adjacency_for pair_decision pair_rule same_record_rule same_role_rule
    trim utf16_length normalize_space slice_start slice_from pairs_of decide_pair
    clusters_have_hard_identity_conflict add_to_group any_conflicts conflicts_with_any decide_pairs
    dedupe_cluster dedupe_result group_by_root cluster_members union add_all find_root join_found
    join_roots new_disjoint_set with_entry quote sha256 stable_stringify stringify begins contains
    ends_with_dot is_digest is_domain is_observation_id split_codes
pair_found = Memᴰ.head refl

A1-ne-B2 : ◌≢◌ {A = String} "A1" "B2"
A1-ne-B2 same = ground (arith, (eq_iff "A1" "B2").1 same)

deduplicate_candidates-IsCompatible_example :
    IsCompatible platform web no_options three "A1" "B2"
    ⊎ IsCompatible platform web no_options three "B2" "A1"
deduplicate_candidates-IsCompatible_example =
    deduplicate_candidates-IsCompatible platform web no_options three deduplicated pair_cluster "A1"
      "B2" ran pair_found refl refl A1-ne-B2

deduplicate_candidates-Linked_example :
    ((c : DedupeCluster) × Memᴰ c deduplicated.clusters
      × (includes c.member_candidate_ids "A1" ≡ true)
      × (includes c.member_candidate_ids "C3" ≡ true))
    ↔ Linked (λ z. z) deduplicated.decisions "A1" "C3"
deduplicate_candidates-Linked_example =
    deduplicate_candidates-Linked platform web no_options three deduplicated "A1" "C3" ran refl refl

twice_thrown :
    deduplicate_candidates platform web no_options (lever_9 ∷ lever_9 ∷ [])
    ≡ err candidates_not_unique
unfolding deduplicate_candidates unique sort_by insert_by
twice_thrown = refl

deduplicate_candidates-input_error_example : is_input_error candidates_not_unique ≡ true
deduplicate_candidates-input_error_example =
    deduplicate_candidates-input_error platform web no_options (lever_9 ∷ lever_9 ∷ [])
      candidates_not_unique twice_thrown
