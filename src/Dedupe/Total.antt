-- ===== src/Dedupe/Total.antt =====
-- `deduplicateCandidates` of discovery/dedupe.ts never fails in its disjoint set: it throws only what the
-- candidates themselves give reason for.
use vocation_os.Prelude.{
  ℕ, suc, ◌+◌, ◌<◌, ◌≡◌, refl, inl, inr, true, false, List, [], ◌∷◌, some, String, ◌===◌, length,
  includes, ok, err, arith, Bool-cases, Result-cases, All, eq_iff, eq_refl,
}
use vocation_os.Runtime.{Platform}
use vocation_os.Dedupe.{WebRuntime, DedupeCandidate, DedupeOptions, DedupeDecision, DedupeError}
use vocation_os.Dedupe.Normal.{normalize_candidate}
use vocation_os.Dedupe.Pair.{evaluate_dedupe_pair}
use vocation_os.Dedupe.Sets.{DisjointSet, new_disjoint_set}
use vocation_os.Dedupe.Joined.{IsForest}
use vocation_os.Dedupe.Merged.{
  find_root-IsForest, cluster_members-IsForest, union-IsForest, new_disjoint_set-IsForest,
  next_roots, roots_after,
}
use vocation_os.Dedupe.Grouped.{group_by_root-IsGrouped}
use vocation_os.Dedupe.Sound.{
  IsPair, NoConflict, evaluate_dedupe_pair-Names, decide_pair-Decides, decide_pairs-IsDecided,
}
use vocation_os.Dedupe.Checked.{clusters-IsAllowed}
use vocation_os.Dedupe.Clusters.{
  candidate_of, ids_of, sorted_candidates, conflicts_with_any, any_conflicts, is_merge, pairs_of,
  clusters_have_hard_identity_conflict, decide_pair, decide_pairs, group_by_root, normalize_all,
  Groups, deduplicate_candidates,
}
use vocation_os.Dedupe.Runs.{ids-truthy, all_included, pairs-IsPair}
use vocation_os.Dedupe.Errors.{
  is_input_error, OnlyInput, normalize-input_error, evaluate-input_error,
}

candidate_of-known :
    (cs : List DedupeCandidate) (id : String)
    → includes (ids_of cs) id ≡ true
    → (c : DedupeCandidate) × (candidate_of cs id ≡ some c)
candidate_of-known [] id m = absurd (ground arith)
candidate_of-known (c ∷ cs) id m = elim (Bool-cases (c.candidate_id === id)) [
  | inl here ↦ (c, rw here refl)
  | inr later ↦ let (d, found) = candidate_of-known cs id (ground arith) in (d, rw later found)
]

module _ (p : Platform) (w : WebRuntime) (options : DedupeOptions w.Score)
    (cs : List DedupeCandidate) where
  conflicts-input_error :
      (left : DedupeCandidate) (ids : List String)
      → ((y : String) → includes ids y ≡ true → includes (ids_of cs) y ≡ true)
      → OnlyInput (conflicts_with_any p w options cs left ids)
  unfolding conflicts_with_any
  conflicts-input_error left [] known why h = cc
  conflicts-input_error left (id ∷ ids) known why h =
      let (right, found) = candidate_of-known cs id (known id (ground (arith, eq_refl id))) in
      elim (Result-cases (evaluate_dedupe_pair p w options left right)) [
        | inr (e, failed) ↦ evaluate-input_error p w options left right why (ground arith)
        | inl (d, x) ↦
            conflicts-input_error left ids (λ y m. known y (ground arith)) why (ground arith)
      ]

  module _ (rep : String → String) (bound rounds : ℕ) (enough : bound < rounds) where
    any_conflicts-input_error :
        (left_ids : List String) (right_id : String) (s : DisjointSet)
        → includes (ids_of cs) right_id ≡ true
        → ((y : String) → includes left_ids y ≡ true → includes (ids_of cs) y ≡ true)
        → IsForest (ids_of cs) s rep bound
        → OnlyInput (any_conflicts p w options cs rounds left_ids right_id s)
    unfolding any_conflicts
    any_conflicts-input_error [] right_id s m known f why h = cc
    any_conflicts-input_error (id ∷ left_ids) right_id s m known f why h =
        let (left, found) = candidate_of-known cs id (known id (ground (arith, eq_refl id))) in
        let (t, right_ids, got, f', holds) =
          cluster_members-IsForest (ids_of cs) rep bound rounds enough w.text_lt s right_id f m in
        elim (Result-cases (conflicts_with_any p w options cs left right_ids)) [
          | inr (e, failed) ↦
              conflicts-input_error left right_ids (λ y n. ground (arith, holds y)) why
                (ground arith)
          | inl (true, hit) ↦ absurd (ground arith)
          | inl (false, clear) ↦
              any_conflicts-input_error left_ids right_id t m (λ y n. known y (ground arith)) f' why
                (ground arith)
        ]

    clusters-input_error :
        (left_id right_id : String) (s : DisjointSet)
        → includes (ids_of cs) left_id ≡ true
        → includes (ids_of cs) right_id ≡ true
        → IsForest (ids_of cs) s rep bound
        → OnlyInput (clusters_have_hard_identity_conflict p w options cs rounds left_id right_id s)
    unfolding clusters_have_hard_identity_conflict
    clusters-input_error left_id right_id s l_in r_in f why h =
        let ids = ids_of cs in
        let (s1, got1, f1) = find_root-IsForest ids rep bound rounds enough s left_id f l_in in
        let (s2, got2, f2) = find_root-IsForest ids rep bound rounds enough s1 right_id f1 r_in in
        let (s3, left_ids, got3, f3, holds) =
          cluster_members-IsForest ids rep bound rounds enough w.text_lt s2 left_id f2 l_in in
        elim (Bool-cases (rep left_id === rep right_id)) [
          | inl same ↦ absurd (ground arith)
          | inr apart ↦
              any_conflicts-input_error left_ids right_id s3 r_in (λ y n. ground (arith, holds y))
                f3 why (ground arith)
        ]

    decide_pair-input_error :
        (a b : DedupeCandidate) (s : DisjointSet)
        → IsPair p w options cs (ids_of cs) (a, b)
        → IsForest (ids_of cs) s rep bound
        → OnlyInput (decide_pair p w options cs rounds (a, b) s)
    unfolding decide_pair
    decide_pair-input_error a b s inside f why h =
        elim (Result-cases (evaluate_dedupe_pair p w options a b)) [
          | inr (e, failed) ↦ evaluate-input_error p w options a b why (ground arith)
          | inl (d, evaluated) ↦
              let (l_in, r_in) =
                evaluate_dedupe_pair-Names p w options cs (ids_of cs) a b d inside evaluated in
              elim (Bool-cases (is_merge d.outcome)) [
                | inr kept ↦ absurd (ground arith)
                | inl merging ↦
                    elim (Result-cases (
                      clusters_have_hard_identity_conflict p w options cs rounds d.left_candidate_id
                        d.right_candidate_id s)) [
                          | inr (e, failed) ↦
                              clusters-input_error d.left_candidate_id d.right_candidate_id s l_in
                                r_in f why (ground arith)
                          | inl ((true, u), hit) ↦ absurd (ground arith)
                          | inl ((false, u), clear) ↦
                              let (f', free) =
                                clusters-IsAllowed p w options cs (ids_of cs) rep bound rounds
                                  enough d.left_candidate_id d.right_candidate_id s u false l_in
                                  r_in f clear in
                              let (v, done, next) =
                                union-IsForest (ids_of cs) rep bound rounds enough w.text_lt u
                                  d.left_candidate_id d.right_candidate_id f' l_in r_in in
                              absurd (ground arith)
                        ]
              ]
        ]

  decide_pairs-input_error :
      (rep : String → String) (bound rounds : ℕ) (pairs : List (DedupeCandidate × DedupeCandidate))
      (s : DisjointSet)
      → bound + length pairs < rounds
      → All (IsPair p w options cs (ids_of cs)) pairs
      → IsForest (ids_of cs) s rep bound
      → NoConflict p w options cs (ids_of cs) rep
      → OnlyInput (decide_pairs p w options cs rounds pairs s)
  unfolding decide_pairs
  decide_pairs-input_error rep bound rounds [] s enough inside f free why h = cc
  decide_pairs-input_error rep bound rounds ((a, b) ∷ pairs) s enough inside f free why h =
      elim (Result-cases (decide_pair p w options cs rounds (a, b) s)) [
        | inr (e, failed) ↦
            decide_pair-input_error rep bound rounds (omega arith) a b s (inside.0) f why
              (ground arith)
        | inl ((d, u), first) ↦
            let (f', free', named) =
              decide_pair-Decides p w options cs (ids_of cs) rep bound rounds a b s u d
                (omega arith) (inside.0) f free first in
            elim (Result-cases (decide_pairs p w options cs rounds pairs u)) [
              | inr (e, failed) ↦
                  decide_pairs-input_error (next_roots w.text_lt rep d) (suc bound) rounds pairs u
                    (omega arith) (inside.1) f' free' why (ground arith)
              | inl ((es, v), rest) ↦ absurd (ground arith)
            ]
      ]

module _ (p : Platform) (w : WebRuntime) (options : DedupeOptions w.Score) where
  normalize_all-input_error : (cs : List DedupeCandidate) → OnlyInput (normalize_all p w options cs)
  normalize_all-input_error [] why h = cc
  normalize_all-input_error (c ∷ cs) why h = elim (Result-cases (normalize_candidate p w c)) [
    | inr (e, failed) ↦ normalize-input_error p w options c why (ground arith)
    | inl (n, x) ↦ normalize_all-input_error cs why (ground arith)
  ]

  -- The loop and the grouping, from a new disjoint set.
  clusters_made :
      (cs : List DedupeCandidate) (why : DedupeError)
      → normalize_all p w options cs ≡ ok tt
      → (decide_pairs p w options cs
              (suc (length (pairs_of cs)))
              (pairs_of cs)
              (new_disjoint_set (ids_of cs))
            ≡ err why
          → is_input_error why ≡ true)
        × ((ds : List (DedupeDecision w.Score)) (s : DisjointSet)
            → decide_pairs p w options cs
                (suc (length (pairs_of cs)))
                (pairs_of cs)
                (new_disjoint_set (ids_of cs))
              ≡ ok (ds, s)
            → (t : DisjointSet) × (gs : Groups) × (group_by_root
                  (suc (length (pairs_of cs)))
                  (ids_of cs)
                  s
                  []
                ≡ ok (gs, t)))
  clusters_made cs why normal =
      let ids = ids_of cs in
      let rounds = suc (length (pairs_of cs)) in
      let forest = new_disjoint_set-IsForest ids (λ x m. ids-truthy p w options cs x normal m) in
      let inside = pairs-IsPair p w options ids cs (all_included p w options ids) in
      (
        decide_pairs-input_error p w options cs (λ x. x) 0 rounds (pairs_of cs)
            (new_disjoint_set ids) (omega arith) inside forest
            (λ x y a b e unlike. absurd (ground (arith, eq_iff x y))) why,
        λ ds s decided.
            let d =
              decide_pairs-IsDecided p w options cs ids (λ x. x) 0 rounds (pairs_of cs)
                (new_disjoint_set ids) s ds (omega arith) inside forest
                (λ x y a b e unlike. absurd (ground (arith, eq_iff x y))) decided in
            let (t, gs, got, fits, complete, kept) =
              group_by_root-IsGrouped ids (roots_after w.text_lt (λ x. x) ds) d.depth_bound rounds
                d.within ids s [] d.forest (all_included p w options ids) tt in
            (t, gs, got),
      )

  -- Whatever the candidates are, the call gives a result or throws for their sake: a field, a URL, a
  -- score or an id that is not allowed. The disjoint set never fails: its paths end within the rounds
  -- that the pairs allow, its table of members has every root, and every id is known.
  pub deduplicate_candidates-input_error :
      (candidates : List DedupeCandidate) (why : DedupeError)
      → deduplicate_candidates p w options candidates ≡ err why
      → is_input_error why ≡ true
  unfolding deduplicate_candidates
  deduplicate_candidates-input_error candidates why h =
      let cs = sorted_candidates w.text_lt candidates in
      elim (Result-cases (normalize_all p w options cs)) [
        | inr (e, failed) ↦ let i = normalize_all-input_error cs e failed in ground arith
        | inl (_, normal) ↦
            elim (Result-cases (
              decide_pairs p w options cs (suc (length (pairs_of cs))) (pairs_of cs)
                (new_disjoint_set (ids_of cs)))) [
                  | inr (e, failed) ↦ let i = (clusters_made cs e normal).0 failed in ground arith
                  | inl ((ds, s), decided) ↦
                      let (t, gs, got) = (clusters_made cs why normal).1 ds s decided in
                      ground arith
                ]
      ]
