-- ===== src/Dedupe/Linked.antt =====
-- What the clusters of `deduplicateCandidates` in discovery/dedupe.ts are: the candidates that the
-- decisions to merge connect.
use vocation_os.Prelude.{
  ◌≡◌, refl, sym, ◌∙◌, inl, inr, Bool, true, List, [], ◌∷◌, String, Bool-cases,
}
use mathlib.Core.List.{Memᴰ}
use vocation_os.Dedupe.{DedupeDecision}
use vocation_os.Dedupe.Merged.{merged-Met, merged-kept, merged-united, next_roots, roots_after}
use vocation_os.Dedupe.Clusters.{is_merge}

-- Connected by decisions to merge, over ids that `start` takes for one.
pub data Linked {S : Type 0} (start : String → String) (ds : List (DedupeDecision S))
    : String → String → Type 0 where
  alike : {x y : String} → start x ≡ start y → Linked start ds x y
  merged_by :
      {x y : String} (d : DedupeDecision S)
      → Memᴰ d ds
      → is_merge d.outcome ≡ true
      → x ≡ d.left_candidate_id
      → y ≡ d.right_candidate_id
      → Linked start ds x y
  back : {x y : String} → Linked start ds x y → Linked start ds y x
  chain : {x y z : String} → Linked start ds x y → Linked start ds y z → Linked start ds x z

module _ {S : Type 0} (text_lt : String → String → Bool) where
  next_roots-kept :
      (rep : String → String) (d : DedupeDecision S) (x y : String)
      → rep x ≡ rep y
      → next_roots text_lt rep d x ≡ next_roots text_lt rep d y
  next_roots-kept rep d x y e = elim (Bool-cases (is_merge d.outcome)) [
    | inl joins ↦ rw joins (merged-kept text_lt rep d.left_candidate_id d.right_candidate_id x y e)
    | inr apart ↦ rw apart e
  ]

  roots_after-kept :
      (rep : String → String) (ds : List (DedupeDecision S)) (x y : String)
      → rep x ≡ rep y
      → roots_after text_lt rep ds x ≡ roots_after text_lt rep ds y
  unfolding roots_after
  roots_after-kept rep [] x y e = e
  roots_after-kept rep (d ∷ ds) x y e =
      roots_after-kept (next_roots text_lt rep d) ds x y (next_roots-kept rep d x y e)

  roots_after-united :
      (rep : String → String) (ds : List (DedupeDecision S)) (d : DedupeDecision S)
      → Memᴰ d ds
      → is_merge d.outcome ≡ true
      → roots_after text_lt rep ds d.left_candidate_id
        ≡ roots_after text_lt rep ds d.right_candidate_id
  unfolding roots_after
  roots_after-united rep [] d m joins = elim m [ ]
  roots_after-united rep (e ∷ ds) d (Memᴰ.head same) joins = rw (← same) (
      roots_after-kept (next_roots text_lt rep d) ds d.left_candidate_id d.right_candidate_id
        (rw joins (merged-united text_lt rep d.left_candidate_id d.right_candidate_id)))
  roots_after-united rep (e ∷ ds) d (Memᴰ.tail m) joins =
      roots_after-united (next_roots text_lt rep e) ds d m joins

  pub Linked-one_root :
      {start : String → String} {ds : List (DedupeDecision S)} {x y : String}
      → Linked start ds x y
      → roots_after text_lt start ds x ≡ roots_after text_lt start ds y
  Linked-one_root {start} {ds} {x} {y} (alike e) = roots_after-kept start ds x y e
  Linked-one_root {start} {ds} (merged_by d m joins a b) =
      rw (a, b) (roots_after-united start ds d m joins)
  Linked-one_root (back l) = sym (Linked-one_root l)
  Linked-one_root (chain l r) = Linked-one_root l ∙ Linked-one_root r

  -- A first decision connects what the roots after it take for one.
  next_roots-Linked :
      (start : String → String) (d : DedupeDecision S) (ds : List (DedupeDecision S)) (x y : String)
      → next_roots text_lt start d x ≡ next_roots text_lt start d y
      → Linked start (d ∷ ds) x y
  next_roots-Linked start d ds x y e = elim (Bool-cases (is_merge d.outcome)) [
    | inr apart ↦ alike (rw apart at e)
    | inl joins ↦
        let middle : Linked start (d ∷ ds) d.left_candidate_id d.right_candidate_id =
          merged_by d (Memᴰ.head refl) joins refl refl in
        elim (merged-Met text_lt start d.left_candidate_id d.right_candidate_id x y
          (rw joins at e)) [
            | inl one ↦ alike one
            | inr (inl (l, r)) ↦ chain (alike l) (chain middle (alike (sym r)))
            | inr (inr (r, l)) ↦ chain (alike r) (chain (back middle) (alike (sym l)))
          ]
  ]

  Linked-after :
      (start : String → String) (d : DedupeDecision S) (ds : List (DedupeDecision S)) {x y : String}
      → Linked (next_roots text_lt start d) ds x y
      → Linked start (d ∷ ds) x y
  Linked-after start d ds {x} {y} (alike e) = next_roots-Linked start d ds x y e
  Linked-after start d ds (merged_by e m joins a b) = merged_by e (Memᴰ.tail m) joins a b
  Linked-after start d ds (back l) = back (Linked-after start d ds l)
  Linked-after start d ds (chain l r) =
      chain (Linked-after start d ds l) (Linked-after start d ds r)

  pub one_root-Linked :
      (start : String → String) (ds : List (DedupeDecision S)) (x y : String)
      → roots_after text_lt start ds x ≡ roots_after text_lt start ds y
      → Linked start ds x y
  unfolding roots_after
  one_root-Linked start [] x y e = alike e
  one_root-Linked start (d ∷ ds) x y e =
      Linked-after start d ds (one_root-Linked (next_roots text_lt start d) ds x y e)
