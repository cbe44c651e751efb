-- ===== src/Dedupe/Sound.antt =====
-- The loop of `deduplicateCandidates` in discovery/dedupe.ts: no cluster holds two candidates that
-- are in conflict, whatever the decisions before.
use vocation_os.Prelude.{
  ℕ, suc, ◌+◌, ◌<◌, ◌≡◌, refl, sym, ◌∙◌, ◌⊎◌, inl, inr, true, false, List, [], ◌∷◌, String, ◌===◌,
  includes, ok, arith, Bool-cases, Result-cases, All, length,
}
use vocation_os.Runtime.{Platform}
use vocation_os.Dedupe.{
  WebRuntime, DedupeCandidate, DedupeOptions, DedupeDecision, distinct, cluster_identity_conflict,
}
use vocation_os.Dedupe.Normal.{normalize_candidate, normalize_candidate-source}
use vocation_os.Dedupe.Pair.{evaluate_dedupe_pair, pair_decision}
use vocation_os.Dedupe.Sets.{DisjointSet, Found}
use vocation_os.Dedupe.Joined.{IsForest}
use vocation_os.Dedupe.Merged.{
  merged, union-IsForest, IsForest-loosened, merged-Met, next_roots, roots_after,
}
use vocation_os.Dedupe.Clusters.{
  clusters_have_hard_identity_conflict, is_merge, decide_pair, decide_pairs,
}
use vocation_os.Dedupe.Checked.{IsAllowed, clusters-IsAllowed}

module _ (p : Platform) (w : WebRuntime) (options : DedupeOptions w.Score)
    (cs : List DedupeCandidate) where
  -- No two ids of one root are in conflict, one way round.
  abbrev pub NoConflict : List String → (String → String) → Type 0
  NoConflict ids rep =
      (x y : String)
      → includes ids x ≡ true
      → includes ids y ≡ true
      → rep x ≡ rep y
      → (x === y) ≡ false
      → IsAllowed p w options cs x y ⊎ IsAllowed p w options cs y x

  merged-NoConflict :
      (ids : List String) (rep : String → String) (left right : String)
      → NoConflict ids rep
      → (rep left ≡ rep right)
        ⊎ ((x y : String)
            → includes ids x ≡ true
            → rep x ≡ rep left
            → includes ids y ≡ true
            → rep y ≡ rep right
            → IsAllowed p w options cs x y)
      → NoConflict ids (merged w.text_lt rep left right)
  merged-NoConflict ids rep left right none_yet checked x y a b e unlike =
      elim (merged-Met w.text_lt rep left right x y e) [
        | inl same ↦ none_yet x y a b same unlike
        | inr (inl (l, r)) ↦ elim checked [
          | inl one ↦ none_yet x y a b (l ∙ one ∙ sym r) unlike
          | inr pairs ↦ inl (pairs x y a l b r)
        ]
        | inr (inr (r, l)) ↦ elim checked [
          | inl one ↦ none_yet x y a b (r ∙ sym one ∙ sym l) unlike
          | inr pairs ↦ inr (pairs y x b l a r)
        ]
      ]

  -- The ids of a decision are those of its pair.
  abbrev pub Names : List String → DedupeDecision w.Score → Type 0
  Names ids d =
      (includes ids d.left_candidate_id ≡ true) × (includes ids d.right_candidate_id ≡ true)

  abbrev pub IsPair : List String → DedupeCandidate × DedupeCandidate → Type 0
  IsPair ids (a, b) = (includes ids a.candidate_id ≡ true) × (includes ids b.candidate_id ≡ true)

  pub evaluate_dedupe_pair-Names :
      (ids : List String) (a b : DedupeCandidate) (d : DedupeDecision w.Score)
      → IsPair ids (a, b)
      → evaluate_dedupe_pair p w options a b ≡ ok d
      → Names ids d
  unfolding evaluate_dedupe_pair pair_decision
  evaluate_dedupe_pair-Names ids a b d inside h = elim (Result-cases (normalize_candidate p w a)) [
    | inr (why, failed) ↦ absurd (ground arith)
    | inl (l, el) ↦ elim (Result-cases (normalize_candidate p w b)) [
      | inr (why, failed) ↦ absurd (ground arith)
      | inl (r, er) ↦
          ground
            (arith, inside, normalize_candidate-source p w a l, normalize_candidate-source p w b r)
    ]
  ]

  kept_parts :
      (e d : DedupeDecision w.Score) (s t : DisjointSet)
      → ◌≡◌ {A = Found (DedupeDecision w.Score)} (ok (e, s)) (ok (d, t))
      → (d ≡ e) × (t ≡ s)
  kept_parts e d s t h = ground arith

  abbrev set_apart : DedupeDecision w.Score → DedupeDecision w.Score
  set_apart e = record e { outcome = distinct; reason = cluster_identity_conflict }

  abbrev pub Decides :
      List String → (String → String) → ℕ → DisjointSet → DedupeDecision w.Score → Type 0
  Decides ids rep bound t d =
      IsForest ids t (next_roots w.text_lt rep d) (suc bound)
      × NoConflict ids (next_roots w.text_lt rep d)
      × Names ids d

  pub decide_pair-Decides :
      (ids : List String) (rep : String → String) (bound rounds : ℕ) (a b : DedupeCandidate)
      (s t : DisjointSet) (d : DedupeDecision w.Score)
      → bound < rounds
      → IsPair ids (a, b)
      → IsForest ids s rep bound
      → NoConflict ids rep
      → decide_pair p w options cs rounds (a, b) s ≡ ok (d, t)
      → Decides ids rep bound t d
  unfolding decide_pair
  decide_pair-Decides ids rep bound rounds a b s t d enough inside f none_yet h =
      elim (Result-cases (evaluate_dedupe_pair p w options a b)) [
        | inr (why, failed) ↦ absurd (ground arith)
        | inl (e, evaluated) ↦
            let (l_in, r_in) = evaluate_dedupe_pair-Names ids a b e inside evaluated in
            elim (Bool-cases (is_merge e.outcome)) [
              | inr kept ↦
                  (let (one, two) = kept_parts e d s t (ground arith) in
                    rw (one, two, kept)
                      (IsForest-loosened ids rep bound s f, none_yet, (l_in, r_in)))
              | inl merging ↦
                  elim (Result-cases (
                    clusters_have_hard_identity_conflict p w options cs rounds e.left_candidate_id
                      e.right_candidate_id s)) [
                        | inr (why, failed) ↦ absurd (ground arith)
                        | inl ((true, u), hit) ↦
                            (let (f', free) =
                                clusters-IsAllowed p w options cs ids rep bound rounds enough
                                  e.left_candidate_id e.right_candidate_id s u true l_in r_in f
                                  hit in
                              let (one, two) = kept_parts (set_apart e) d u t (ground arith) in
                              rw (one, two)
                                (IsForest-loosened ids rep bound u f', none_yet, (l_in, r_in)))
                        | inl ((false, u), clear) ↦
                            (let (f', free) =
                                clusters-IsAllowed p w options cs ids rep bound rounds enough
                                  e.left_candidate_id e.right_candidate_id s u false l_in r_in f
                                  clear in
                              let (v, done, next) =
                                union-IsForest ids rep bound rounds enough w.text_lt u
                                  e.left_candidate_id e.right_candidate_id f' l_in r_in in
                              let (one, two) = kept_parts e d v t (ground arith) in
                              rw (one, two, merging)
                                (
                                  next,
                                  merged-NoConflict ids rep e.left_candidate_id e.right_candidate_id
                                      none_yet (free refl),
                                  (l_in, r_in),
                                ))
                      ]
            ]
      ]

  pub record IsDecided (ids : List String) (rep : String → String) (rounds : ℕ) (t : DisjointSet)
      (ds : List (DedupeDecision w.Score)) : Type 0 where
    pub depth_bound : ℕ
    pub within : depth_bound < rounds
    pub forest : IsForest ids t (roots_after w.text_lt rep ds) depth_bound
    pub no_conflict : NoConflict ids (roots_after w.text_lt rep ds)
    pub names : All (Names ids) ds

  decided_nothing :
      (ds : List (DedupeDecision w.Score)) (s t : DisjointSet)
      → ◌≡◌ {A = Found (List (DedupeDecision w.Score))} (ok ([], s)) (ok (ds, t))
      → (ds ≡ []) × (t ≡ s)
  decided_nothing ds s t h = ground arith

  decided_more :
      (d : DedupeDecision w.Score) (es ds : List (DedupeDecision w.Score)) (v t : DisjointSet)
      → ◌≡◌ {A = Found (List (DedupeDecision w.Score))} (ok (d ∷ es, v)) (ok (ds, t))
      → (ds ≡ d ∷ es) × (t ≡ v)
  decided_more d es ds v t h = (ground arith, ground arith)

  pub decide_pairs-IsDecided :
      (ids : List String) (rep : String → String) (bound rounds : ℕ)
      (pairs : List (DedupeCandidate × DedupeCandidate)) (s t : DisjointSet)
      (ds : List (DedupeDecision w.Score))
      → bound + length pairs < rounds
      → All (IsPair ids) pairs
      → IsForest ids s rep bound
      → NoConflict ids rep
      → decide_pairs p w options cs rounds pairs s ≡ ok (ds, t)
      → IsDecided ids rep rounds t ds
  unfolding decide_pairs roots_after
  decide_pairs-IsDecided ids rep bound rounds [] s t ds enough inside f none_yet h =
      let (one, two) = decided_nothing ds s t h in
      rw (one, two)
        (record {
          depth_bound = bound;
          within = omega arith;
          forest = f;
          no_conflict = none_yet;
          names = tt;
        })
  decide_pairs-IsDecided ids rep bound rounds ((a, b) ∷ pairs) s t ds enough inside f none_yet h =
      elim (Result-cases (decide_pair p w options cs rounds (a, b) s)) [
        | inr (why, failed) ↦ absurd (ground arith)
        | inl ((d, u), first) ↦ elim (Result-cases (decide_pairs p w options cs rounds pairs u)) [
          | inr (why, failed) ↦ absurd (ground arith)
          | inl ((es, v), rest) ↦
              let (f', none_now, named) =
                decide_pair-Decides ids rep bound rounds a b s u d (omega arith) (inside.0) f
                  none_yet first in
              let more =
                decide_pairs-IsDecided ids (next_roots w.text_lt rep d) (suc bound) rounds pairs u v
                  es (omega arith) (inside.1) f' none_now rest in
              let (one, two) = decided_more d es ds v t (ground arith) in
              rw (one, two)
                (record {
                  depth_bound = more.depth_bound;
                  within = more.within;
                  forest = more.forest;
                  no_conflict = more.no_conflict;
                  names = (named, more.names);
                })
        ]
      ]
