-- ===== src/Dedupe/Pair.antt =====
-- discovery/dedupe.ts: when two records of an opportunity are one, `evaluateDedupePair`.
use vocation_os.Prelude.{
  Bool, true, false, not, ◌&&◌, ◌||◌, Option, none, some, String, ◌===◌, if◌then◌else◌, ok, ◌>>=◌,
  ◌>>◌, guard, throw_if, is_some, is_empty,
}
use vocation_os.Runtime.{Platform}
use vocation_os.Text.{is_truthy}
use vocation_os.Dedupe.{
  WebRuntime, DedupeCandidate, NormalizedCandidate, DedupeOutcome, DedupeReason, DedupeDecision,
  DedupeOptions, Outcome, same_text, merge, review, distinct, same_provider_record,
  same_application_endpoint, same_canonical_posting, same_content_provenance,
  provider_record_conflict, company_domain_conflict, taxonomy_adjacent_role,
  identity_evidence_insufficient, material_identity_mismatch, minimum_invalid, adjacency_invalid,
  same_candidate,
}
use vocation_os.Dedupe.Normal.{normalize_candidate}

module _ (p : Platform) (w : WebRuntime) where
  open w use {
    parse_url, print_url, nfkc, to_lower_case, is_letter_or_number, text_lt, Score, in_unit,
    to_fixed, at_least,
  }

  abbrev domain_match : Option String → Option String → Option Bool
  domain_match (some a) (some b) = some (a === b)
  domain_match _ _ = none

  -- `decision`
  unfoldable pub pair_decision :
      (left right : NormalizedCandidate)
      → DedupeOutcome
      → DedupeReason
      → Option Score
      → DedupeDecision Score
  pair_decision left right outcome reason adjacency =
      let a = left.source.candidate_id in
      let b = right.source.candidate_id in
      let swapped = text_lt b a in
      record {
        left_candidate_id = if swapped then b else a;
        right_candidate_id = if swapped then a else b;
        outcome = outcome;
        reason = reason;
        company_domain_match = domain_match left.company_domain right.company_domain;
        taxonomy_adjacency = adjacency;
      }

  abbrev checked_score : Option Score → Outcome (Option Score)
  checked_score none = ok none
  checked_score (some s) = guard (in_unit s) adjacency_invalid >> ok (some (to_fixed s))

  -- `adjacencyFor`
  unfoldable pub adjacency_for :
      (left right : NormalizedCandidate) → DedupeOptions Score → Outcome (Option Score)
  adjacency_for left right options = elim options.taxonomy_adjacency [
    | none ↦ ok none
    | some adjacency ↦
        if is_empty left.taxonomy_concept_ids || is_empty right.taxonomy_concept_ids
        then ok none
        else checked_score (adjacency left.taxonomy_concept_ids right.taxonomy_concept_ids)
  ]

  -- Whether a domain is known on both sides and differs.
  abbrev pub domain_conflict : (left right : NormalizedCandidate) → Bool
  domain_conflict left right =
      is_some left.company_domain
      && is_some right.company_domain
      && not (same_text left.company_domain right.company_domain)

  abbrev pub same_company : (left right : NormalizedCandidate) → Bool
  same_company left right =
      left.company === right.company
      || is_some left.company_domain && same_text left.company_domain right.company_domain

  abbrev pub same_location : (left right : NormalizedCandidate) → Bool
  same_location left right = is_truthy left.location && left.location === right.location

  abbrev location_conflict : (left right : NormalizedCandidate) → Bool
  location_conflict left right =
      is_truthy left.location && is_truthy right.location && not (left.location === right.location)

  abbrev pub same_content : (left right : NormalizedCandidate) → Bool
  same_content left right =
      is_some left.source.description_digest
      && same_text left.source.description_digest right.source.description_digest
      && is_some left.source.posted_at
      && same_text left.source.posted_at right.source.posted_at

  -- The rule for two records of one provider with the same id.
  unfoldable pub same_record_rule :
      (left right : NormalizedCandidate) → DedupeOutcome × DedupeReason
  same_record_rule left right =
      if not (same_company left right)
        || not (left.role_title === right.role_title)
        || location_conflict left right
      then (distinct, material_identity_mismatch)
      else if left.canonical_url === right.canonical_url
      then (merge, same_provider_record)
      else (review, identity_evidence_insufficient)

  -- The rule for two records of one company and title.
  unfoldable pub same_role_rule : (left right : NormalizedCandidate) → DedupeOutcome × DedupeReason
  same_role_rule left right =
      let one_place = same_location left right in
      let one_url = left.canonical_url === right.canonical_url in
      if is_some left.apply_url
        && same_text left.apply_url right.apply_url
        && one_place
        && (one_url || same_content left right)
      then (merge, same_application_endpoint)
      else if one_url && one_place
      then (merge, same_canonical_posting)
      else if same_content left right && one_place
      then (merge, same_content_provenance)
      else (review, identity_evidence_insufficient)

  abbrev is_adjacent : (minimum : Score) → Option Score → Bool
  is_adjacent minimum none = false
  is_adjacent minimum (some s) = at_least s minimum

  -- The rules of `evaluateDedupePair`, in their order.
  unfoldable pub pair_rule :
      (minimum : Score)
      → (left right : NormalizedCandidate) → Option Score
      → DedupeOutcome × DedupeReason
  unfolding same_record_rule same_role_rule
  pair_rule minimum left right adjacency =
      if domain_conflict left right
      then (distinct, company_domain_conflict)
      else if left.source.provider_id === right.source.provider_id
      then (if left.source.source_record_id === right.source.source_record_id
          then same_record_rule left right
          else (distinct, provider_record_conflict))
      else if not (same_company left right)
      then (distinct, material_identity_mismatch)
      else if not (left.role_title === right.role_title)
      then (if is_adjacent minimum adjacency
          then (review, taxonomy_adjacent_role)
          else (distinct, material_identity_mismatch))
      else same_role_rule left right

  abbrev minimum_of : DedupeOptions Score → Score
  minimum_of options = elim options.minimum_review_adjacency [ none ↦ w.half | some s ↦ s ]

  -- `evaluateDedupePair`
  unfoldable pub evaluate_dedupe_pair :
      DedupeOptions Score → (left right : DedupeCandidate) → Outcome (DedupeDecision Score)
  unfolding normalize_candidate adjacency_for pair_rule pair_decision
  evaluate_dedupe_pair options l r = do
    left ← normalize_candidate p w l
    right ← normalize_candidate p w r
    guard (in_unit (minimum_of options)) minimum_invalid
    adjacency ← adjacency_for left right options
    throw_if (left.source.candidate_id === right.source.candidate_id) same_candidate
    let rule = pair_rule (minimum_of options) left right adjacency
    ok (pair_decision left right rule.0 rule.1 adjacency)

-- `isHardIdentityConflict`
abbrev is_hard_reason : DedupeReason → Bool
is_hard_reason provider_record_conflict = true
is_hard_reason company_domain_conflict = true
is_hard_reason material_identity_mismatch = true
is_hard_reason _ = false

abbrev pub is_distinct : DedupeOutcome → Bool
is_distinct distinct = true
is_distinct _ = false

unfoldable pub is_hard_identity_conflict : {S : Type 0} → DedupeDecision S → Bool
is_hard_identity_conflict d = is_distinct d.outcome && is_hard_reason d.reason
