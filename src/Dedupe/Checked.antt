-- ===== src/Dedupe/Checked.antt =====
-- `clustersHaveHardIdentityConflict` of discovery/dedupe.ts: what a check that finds nothing shows.
use vocation_os.Prelude.{
  ℕ, ◌<◌, ◌≡◌, ◌⊎◌, inl, inr, Bool, true, false, List, [], ◌∷◌, some, String, ◌===◌, includes, ok,
  arith, Bool-cases, Result-cases, Option-cases, eq_iff, eq_refl,
}
use vocation_os.Runtime.{Platform}
use vocation_os.Dedupe.{WebRuntime, DedupeCandidate, DedupeOptions, DedupeDecision}
use vocation_os.Dedupe.Pair.{evaluate_dedupe_pair, is_hard_identity_conflict}
use vocation_os.Dedupe.Sets.{DisjointSet}
use vocation_os.Dedupe.Joined.{IsForest}
use vocation_os.Dedupe.Merged.{find_root-IsForest, cluster_members-IsForest}
use vocation_os.Dedupe.Clusters.{
  candidate_of, conflicts_with_any, any_conflicts, clusters_have_hard_identity_conflict,
}

module _ (p : Platform) (w : WebRuntime) (options : DedupeOptions w.Score)
    (cs : List DedupeCandidate) where
  -- The pair was evaluated, and is in no hard conflict.
  pub record IsAllowed (x y : String) : Type 0 where
    pub left : DedupeCandidate
    pub right : DedupeCandidate
    pub decision : DedupeDecision w.Score
    pub left_found : candidate_of cs x ≡ some left
    pub right_found : candidate_of cs y ≡ some right
    pub evaluated : evaluate_dedupe_pair p w options left right ≡ ok decision
    pub soft : is_hard_identity_conflict decision ≡ false

  conflicts_with_any-IsAllowed :
      (x : String) (left : DedupeCandidate) (ids : List String) (y : String)
      → candidate_of cs x ≡ some left
      → conflicts_with_any p w options cs left ids ≡ ok false
      → includes ids y ≡ true
      → IsAllowed x y
  unfolding conflicts_with_any
  conflicts_with_any-IsAllowed x left [] y found h m = cc
  conflicts_with_any-IsAllowed x left (id ∷ ids) y found h m =
      elim (Option-cases (candidate_of cs id)) [
        | inl missing ↦ absurd (ground arith)
        | inr (right, here) ↦ elim (Result-cases (evaluate_dedupe_pair p w options left right)) [
          | inr (why, failed) ↦ absurd (ground arith)
          | inl (d, e) ↦ elim (Bool-cases (is_hard_identity_conflict d)) [
            | inl hard ↦ absurd (ground arith)
            | inr soft ↦ elim (Bool-cases (id === y)) [
              | inl same ↦ record {
                left = left;
                right = right;
                decision = d;
                left_found = found;
                right_found = rw (← (eq_iff id y).0 same) here;
                evaluated = e;
                soft = soft;
              }
              | inr other ↦
                  conflicts_with_any-IsAllowed x left ids y found (ground arith) (ground arith)
            ]
          ]
        ]
      ]

  module _ (ids : List String) (rep : String → String) (bound rounds : ℕ)
      (enough : bound < rounds) where
    -- What a check of two clusters shows, if it finds nothing.
    abbrev AllAllowed : List String → (right_id : String) → Type 0
    AllAllowed left_ids right_id =
        (x y : String)
        → includes left_ids x ≡ true
        → includes ids y ≡ true
        → rep y ≡ rep right_id
        → IsAllowed x y

    any_conflicts-IsAllowed :
        (left_ids : List String) (right_id : String) (s t : DisjointSet) (hit : Bool)
        → includes ids right_id ≡ true
        → IsForest ids s rep bound
        → any_conflicts p w options cs rounds left_ids right_id s ≡ ok (hit, t)
        → IsForest ids t rep bound × (hit ≡ false → AllAllowed left_ids right_id)
    unfolding any_conflicts
    any_conflicts-IsAllowed [] right_id s t hit m f h = (ground (arith, f), λ free x y a b e. cc)
    any_conflicts-IsAllowed (id ∷ left_ids) right_id s t hit m f h =
        let (s', right_ids, got, f', holds) =
          cluster_members-IsForest ids rep bound rounds enough w.text_lt s right_id f m in
        elim (Option-cases (candidate_of cs id)) [
          | inl missing ↦ absurd (ground arith)
          | inr (left, here) ↦
              elim (Result-cases (conflicts_with_any p w options cs left right_ids)) [
                | inr (why, failed) ↦ absurd (ground arith)
                | inl (true, found) ↦ (ground (arith, f'), λ free. absurd (ground arith))
                | inl (false, clear) ↦
                    let (f2, rest) =
                      any_conflicts-IsAllowed left_ids right_id s' t hit m f' (ground arith) in
                    (
                      f2,
                      λ free x y a b e. elim (Bool-cases (id === x)) [
                        | inl same ↦ rw (← (eq_iff id x).0 same) (
                            conflicts_with_any-IsAllowed id left right_ids y here clear
                              (rw (holds y, b, e) (eq_refl (rep right_id))))
                        | inr other ↦ rest free x y (ground arith) b e
                      ],
                    )
              ]
        ]

    -- What the check of two clusters finds: they are one, or nothing is in conflict.
    pub clusters-IsAllowed :
        (left_id right_id : String) (s t : DisjointSet) (hit : Bool)
        → includes ids left_id ≡ true
        → includes ids right_id ≡ true
        → IsForest ids s rep bound
        → clusters_have_hard_identity_conflict p w options cs rounds left_id right_id s
          ≡ ok (hit, t)
        → IsForest ids t rep bound
          × (hit ≡ false
              → (rep left_id ≡ rep right_id)
                ⊎ ((x y : String)
                    → includes ids x ≡ true
                    → rep x ≡ rep left_id
                    → includes ids y ≡ true
                    → rep y ≡ rep right_id
                    → IsAllowed x y))
    unfolding clusters_have_hard_identity_conflict
    clusters-IsAllowed left_id right_id s t hit l_in r_in f h =
        let (s1, got1, f1) = find_root-IsForest ids rep bound rounds enough s left_id f l_in in
        let (s2, got2, f2) = find_root-IsForest ids rep bound rounds enough s1 right_id f1 r_in in
        let (s3, left_ids, got3, f3, holds) =
          cluster_members-IsForest ids rep bound rounds enough w.text_lt s2 left_id f2 l_in in
        elim (Bool-cases (rep left_id === rep right_id)) [
          | inl same ↦
              (ground (arith, f2), λ free. inl ((eq_iff (rep left_id) (rep right_id)).0 same))
          | inr apart ↦
              let (f4, rest) =
                any_conflicts-IsAllowed left_ids right_id s3 t hit r_in f3 (ground arith) in
              (
                f4,
                λ free.
                    inr
                      λ x y a e b k. rest free x y (rw (holds x, a, e) (eq_refl (rep left_id))) b k,
              )
        ]
