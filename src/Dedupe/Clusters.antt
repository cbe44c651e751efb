-- ===== src/Dedupe/Clusters.antt =====
-- discovery/dedupe.ts: `deduplicateCandidates`.
use vocation_os.Prelude.{
  ℕ, suc, Bool, true, false, not, List, [], ◌∷◌, ◌++◌, map, Option, none, some, String, ◌==◌, ◌===◌,
  if◌then◌else◌, length, ok, ◌>>=◌, ◌>>◌, guard, or_throw, find, get_or, sort_by, unique,
}
use vocation_os.Runtime.{Platform}
use vocation_os.Hash.{
  Json, Items, null, bool, str, arr, obj, nil, cons, end, field, ◌+++◌, stringify, sha256,
}
use vocation_os.Text.{slice_start, slice_from}
use vocation_os.Dedupe.{
  WebRuntime, DedupeCandidate, DedupeOptions, DedupeDecision, DedupeOutcome, DedupeReason, merge,
  review, distinct, same_provider_record, same_application_endpoint, same_canonical_posting,
  same_content_provenance, provider_record_conflict, company_domain_conflict,
  cluster_identity_conflict, taxonomy_adjacent_role, identity_evidence_insufficient,
  material_identity_mismatch, candidate_unknown, candidates_not_unique, Outcome,
}
use vocation_os.Dedupe.Normal.{normalize_candidate}
use vocation_os.Dedupe.Pair.{evaluate_dedupe_pair, is_hard_identity_conflict}
use vocation_os.Dedupe.Sets.{
  DisjointSet, Found, new_disjoint_set, find_root, union, cluster_members, sorted,
}

pub record DedupeCluster : Type 0 where
  pub cluster_id : String
  pub member_candidate_ids : List String

pub record DedupeResult (S : Type 0) : Type 0 where
  pub result_id : String
  pub clusters : List DedupeCluster
  pub decisions : List (DedupeDecision S)

abbrev pub is_merge : DedupeOutcome → Bool
is_merge merge = true
is_merge _ = false

-- The pairs of two nested loops over the indices, in their order.
unfoldable pub pairs_of : {A : Type 0} → List A → List (A × A)
pairs_of [] = []
pairs_of (x ∷ xs) = map (λ y. (x, y)) xs ++ pairs_of xs

-- The candidates' ids, by the roots of their clusters in the order of their first members.
abbrev pub Groups : Type 0
Groups = List (String × List String)

unfoldable pub add_to_group : (root id : String) → Groups → Groups
add_to_group root id [] = (root, id ∷ []) ∷ []
add_to_group root id ((r, ids) ∷ gs) =
    if r === root then (r, ids ++ id ∷ []) ∷ gs else (r, ids) ∷ add_to_group root id gs

unfoldable pub group_by_root : ℕ → List String → DisjointSet → Groups → Found Groups
unfolding find_root add_to_group
group_by_root rounds [] s gs = ok (gs, s)
group_by_root rounds (id ∷ ids) s gs =
    find_root rounds id s >>= λ (root, t). group_by_root rounds ids t (add_to_group root id gs)

-- `candidatesById.get(id)`; the ids are unique.
abbrev pub candidate_of : List DedupeCandidate → String → Option DedupeCandidate
candidate_of cs id = find (λ c. c.candidate_id === id) cs

-- The candidates in the order of their ids.
module _ (text_lt : String → String → Bool) where
  abbrev pub sorted_candidates : List DedupeCandidate → List DedupeCandidate
  sorted_candidates = sort_by (λ x y. not (text_lt y.candidate_id x.candidate_id))

abbrev pub ids_of : List DedupeCandidate → List String
ids_of = map (λ c. c.candidate_id)

module _ (p : Platform) (w : WebRuntime) (options : DedupeOptions w.Score) where
  -- The digest of the text, from "sha256:" on, in upper case.
  abbrev short_digest : Json → String
  short_digest value =
      w.to_upper_case (slice_start 32 (slice_from 7 (sha256 p (stringify p value))))

  -- The inner loop of `clustersHaveHardIdentityConflict`.
  unfoldable pub conflicts_with_any :
      List DedupeCandidate → (left : DedupeCandidate) → List String → Outcome Bool
  conflicts_with_any cs left [] = ok false
  conflicts_with_any cs left (id ∷ ids) = do
    right ← or_throw (candidate_of cs id) candidate_unknown
    d ← evaluate_dedupe_pair p w options left right
    elim (is_hard_identity_conflict d) [ true ↦ ok true | false ↦ conflicts_with_any cs left ids ]

  -- Its outer loop.
  unfoldable pub any_conflicts :
      List DedupeCandidate
      → ℕ
      → (left_ids : List String) → (right_id : String) → DisjointSet
      → Found Bool
  unfolding conflicts_with_any
  any_conflicts cs rounds [] right_id s = ok (false, s)
  any_conflicts cs rounds (id ∷ ids) right_id s = do
    left ← or_throw (candidate_of cs id) candidate_unknown
    (right_ids, t) ← cluster_members w.text_lt rounds right_id s
    hit ← conflicts_with_any cs left right_ids
    elim hit [ true ↦ ok (true, t) | false ↦ any_conflicts cs rounds ids right_id t ]

  -- `clustersHaveHardIdentityConflict`
  unfoldable pub clusters_have_hard_identity_conflict :
      List DedupeCandidate → ℕ → (left_id right_id : String) → DisjointSet → Found Bool
  unfolding any_conflicts
  clusters_have_hard_identity_conflict cs rounds left_id right_id s = do
    (left_root, s1) ← find_root rounds left_id s
    (right_root, s2) ← find_root rounds right_id s1
    elim (left_root === right_root) [
      | true ↦ ok (false, s2)
      | false ↦ cluster_members w.text_lt rounds left_id s2 >>= λ (left_ids, s3).
          any_conflicts cs rounds left_ids right_id s3
    ]

  -- The body of the loop over the pairs.
  unfoldable pub decide_pair :
      List DedupeCandidate
      → ℕ
      → DedupeCandidate × DedupeCandidate
      → DisjointSet
      → Found (DedupeDecision w.Score)
  decide_pair cs rounds (left, right) s = evaluate_dedupe_pair p w options left right >>= λ d.
      elim (is_merge d.outcome) [
        | false ↦ ok (d, s)
        | true ↦ do
          (conflict, t) ←
              clusters_have_hard_identity_conflict cs rounds d.left_candidate_id
                d.right_candidate_id s
          elim conflict [
            | true ↦ ok (record d { outcome = distinct; reason = cluster_identity_conflict }, t)
            | false ↦
                union w.text_lt rounds d.left_candidate_id d.right_candidate_id t >>= λ (_, u).
                ok (d, u)
          ]
      ]

  unfoldable pub decide_pairs :
      List DedupeCandidate
      → ℕ
      → List (DedupeCandidate × DedupeCandidate)
      → DisjointSet
      → Found (List (DedupeDecision w.Score))
  decide_pairs cs rounds [] s = ok ([], s)
  decide_pairs cs rounds (pair ∷ pairs) s = do
    (d, t) ← decide_pair cs rounds pair s
    (ds, u) ← decide_pairs cs rounds pairs t
    ok (d ∷ ds, u)

  abbrev texts : List String → Items
  texts [] = nil
  texts (s ∷ ss) = cons (str s) (texts ss)

  unfoldable pub dedupe_cluster : List String → DedupeCluster
  dedupe_cluster ids =
      let members = sorted w.text_lt ids in
      record {
        cluster_id = "DUP-" +++ short_digest (arr (texts members));
        member_candidate_ids = members;
      }

  abbrev pub normalize_all : List DedupeCandidate → Outcome (Unit {0})
  normalize_all [] = ok tt
  normalize_all (c ∷ cs) = normalize_candidate p w c >>= λ _. normalize_all cs

  abbrev outcome_text : DedupeOutcome → String
  outcome_text merge = "merge"
  outcome_text review = "review"
  outcome_text distinct = "distinct"

  abbrev reason_text : DedupeReason → String
  reason_text same_provider_record = "same-provider-record"
  reason_text same_application_endpoint = "same-application-endpoint"
  reason_text same_canonical_posting = "same-canonical-posting"
  reason_text same_content_provenance = "same-content-provenance"
  reason_text provider_record_conflict = "provider-record-conflict"
  reason_text company_domain_conflict = "company-domain-conflict"
  reason_text cluster_identity_conflict = "cluster-identity-conflict"
  reason_text taxonomy_adjacent_role = "taxonomy-adjacent-role"
  reason_text identity_evidence_insufficient = "identity-evidence-insufficient"
  reason_text material_identity_mismatch = "material-identity-mismatch"

  abbrev decision_json : DedupeDecision w.Score → Json
  decision_json d = obj (
      field "leftCandidateId" (str d.left_candidate_id) (
        field "rightCandidateId" (str d.right_candidate_id) (
          field "outcome" (str (outcome_text d.outcome)) (
            field "reason" (str (reason_text d.reason)) (
              field "companyDomainMatch"
                (elim d.company_domain_match [ none ↦ null | some b ↦ bool b ])
                (field "taxonomyAdjacency"
                  (elim d.taxonomy_adjacency [ none ↦ null | some s ↦ w.score_json s ]) end))))))

  abbrev cluster_json : DedupeCluster → Json
  cluster_json c = obj (
      field "clusterId" (str c.cluster_id)
        (field "memberCandidateIds" (arr (texts c.member_candidate_ids)) end))

  abbrev items : List Json → Items
  items [] = nil
  items (j ∷ js) = cons j (items js)

  unfoldable pub dedupe_result :
      List DedupeCluster → List (DedupeDecision w.Score) → DedupeResult w.Score
  dedupe_result clusters decisions = record {
    result_id =
        "DEDUP-"
        +++ short_digest (
            obj (
              field "clusters" (arr (items (map cluster_json clusters)))
                (field "decisions" (arr (items (map decision_json decisions))) end)));
    clusters = clusters;
    decisions = decisions;
  }

  -- `left.memberCandidateIds[0]!`
  abbrev first_member : DedupeCluster → String
  first_member c = get_or c.member_candidate_ids 0 ""

  abbrev pub canonical_clusters : Groups → List DedupeCluster
  canonical_clusters gs =
      sort_by (λ x y. not (w.text_lt (first_member y) (first_member x)))
        (map (λ g. dedupe_cluster (g.1)) gs)

  -- `deduplicateCandidates`. A path of the disjoint set is no longer than the unions made, so the
  -- number of pairs bounds the rounds of `find`.
  unfoldable pub deduplicate_candidates : List DedupeCandidate → Outcome (DedupeResult w.Score)
  unfolding decide_pairs new_disjoint_set group_by_root
  deduplicate_candidates candidates = do
    let cs = sorted_candidates w.text_lt candidates
    guard (length (unique (λ x y. x === y) (ids_of cs)) == length (ids_of cs)) candidates_not_unique
    normalize_all cs
    let rounds = suc (length (pairs_of cs))
    (decisions, s) ← decide_pairs cs rounds (pairs_of cs) (new_disjoint_set (ids_of cs))
    (groups, _) ← group_by_root rounds (ids_of cs) s []
    ok (dedupe_result (canonical_clusters groups) decisions)
