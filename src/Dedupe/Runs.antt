-- ===== src/Dedupe/Runs.antt =====
-- The runs of `deduplicateCandidates` in discovery/dedupe.ts that give a result: what they leave.
use vocation_os.Prelude.{
  suc, ◌≡◌, refl, sym, ap, ◌∙◌, inl, inr, true, false, not, List, [], ◌∷◌, ◌++◌, map, some, String,
  ◌===◌, length, includes, includes→mem, ok, ok_injective, arith, Bool-cases, Result-cases, All,
  eq_iff, eq_refl, includes-sort_by, mem-sort_by, sort_by-mem,
}
use mathlib.Core.List.{Memᴰ}
use mathlib.Core.Path.{subst}
use vocation_os.Runtime.{Platform}
use vocation_os.Text.{is_truthy, codes}
use vocation_os.Patterns.{is_id_codes}
use vocation_os.Dedupe.{
  WebRuntime, DedupeCandidate, DedupeOptions, DedupeDecision, NormalizedCandidate,
}
use vocation_os.Dedupe.Normal.{normalize_candidate, check_candidate}
use vocation_os.Dedupe.Sets.{DisjointSet, new_disjoint_set}
use vocation_os.Dedupe.Merged.{new_disjoint_set-IsForest, roots_after}
use vocation_os.Dedupe.Grouped.{Fits, IsGrouped, group_of, group_of-mem, group_by_root-IsGrouped}
use vocation_os.Dedupe.Sound.{IsPair, IsDecided, decide_pairs-IsDecided}
use vocation_os.Dedupe.Clusters.{
  DedupeCluster, DedupeResult, Groups, pairs_of, group_by_root, decide_pairs, dedupe_cluster,
  dedupe_result, canonical_clusters, sorted_candidates, ids_of, normalize_all,
  deduplicate_candidates,
}

some_injective : {A : Type 0} {a b : A} → some a ≡ some b → a ≡ b
some_injective h = cc

All-mem : {A : Type 0} (P : A → Type 0) (a : A) (xs : List A) → All P xs → Memᴰ a xs → P a
All-mem P a [] h m = elim m [ ]
All-mem P a (x ∷ xs) h (Memᴰ.head e) = subst P (sym e) (h.0)
All-mem P a (x ∷ xs) h (Memᴰ.tail m) = All-mem P a xs (h.1) m

same_group :
    (r q : String) (ms ns : List String) (gs : Groups)
    → r ≡ q
    → group_of r gs ≡ some ms
    → group_of q gs ≡ some ns
    → ns ≡ ms
same_group r q ms ns gs e at_r at_q =
    some_injective (sym at_q ∙ ap (λ x. group_of x gs) (sym e) ∙ at_r)

module _ (p : Platform) (w : WebRuntime) (options : DedupeOptions w.Score) where
  normalize_candidate-truthy :
      (c : DedupeCandidate) (n : NormalizedCandidate)
      → normalize_candidate p w c ≡ ok n
      → is_truthy c.candidate_id ≡ true
  unfolding normalize_candidate check_candidate
  normalize_candidate-truthy c n h = elim (Bool-cases (is_truthy c.candidate_id)) [
    | inl yes_it_is ↦ yes_it_is
    | inr blank ↦
        let e : c.candidate_id ≡ "" = ground (arith, eq_iff c.candidate_id "") in
        let off : is_id_codes (codes c.candidate_id) ≡ false = rw e refl in absurd (ground arith)
  ]

  pub ids-truthy :
      (cs : List DedupeCandidate) (x : String)
      → normalize_all p w options cs ≡ ok tt
      → includes (ids_of cs) x ≡ true
      → is_truthy x ≡ true
  ids-truthy [] x h m = cc
  ids-truthy (c ∷ cs) x h m = elim (Result-cases (normalize_candidate p w c)) [
    | inr (why, failed) ↦ absurd (ground arith)
    | inl (n, e) ↦ elim (Bool-cases (c.candidate_id === x)) [
      | inl same ↦ rw (← (eq_iff c.candidate_id x).0 same) (normalize_candidate-truthy c n e)
      | inr other ↦ ids-truthy cs x (ground arith) (ground arith)
    ]
  ]

  included_later :
      (x : String) (xs ids : List String)
      → All (λ y. includes ids y ≡ true) xs
      → All (λ y. includes (x ∷ ids) y ≡ true) xs
  included_later x [] ids h = tt
  included_later x (y ∷ xs) ids h = (rw (h.0) (ground arith), included_later x xs ids (h.1))

  pub all_included : (ids : List String) → All (λ y. includes ids y ≡ true) ids
  all_included [] = tt
  all_included (x ∷ xs) = (rw (eq_refl x) refl, included_later x xs xs (all_included xs))

  paired :
      (all_ids : List String) (c : DedupeCandidate) (cs : List DedupeCandidate)
      (rest : List (DedupeCandidate × DedupeCandidate))
      → includes all_ids c.candidate_id ≡ true
      → All (λ y. includes all_ids y ≡ true) (ids_of cs)
      → All (IsPair p w options [] all_ids) rest
      → All (IsPair p w options [] all_ids) (map (λ y. (c, y)) cs ++ rest)
  paired all_ids c [] rest a h r = r
  paired all_ids c (d ∷ cs) rest a h r = ((a, h.0), paired all_ids c cs rest a (h.1) r)

  pub pairs-IsPair :
      (all_ids : List String) (cs : List DedupeCandidate)
      → All (λ y. includes all_ids y ≡ true) (ids_of cs)
      → All (IsPair p w options [] all_ids) (pairs_of cs)
  unfolding pairs_of
  pairs-IsPair all_ids [] h = tt
  pairs-IsPair all_ids (c ∷ cs) h =
      paired all_ids c cs (pairs_of cs) (h.0) (h.1) (pairs-IsPair all_ids cs (h.1))

  -- What a run that gives a result went through.
  pub record Run (cs : List DedupeCandidate) (result : DedupeResult w.Score) : Type 0 where
    pub decisions : List (DedupeDecision w.Score)
    pub groups : Groups
    pub state : DisjointSet
    pub final : DisjointSet
    pub normalized : normalize_all p w options cs ≡ ok tt
    pub decided :
        decide_pairs p w options cs
          (suc (length (pairs_of cs)))
          (pairs_of cs)
          (new_disjoint_set (ids_of cs))
        ≡ ok (decisions, state)
    pub grouped :
        group_by_root (suc (length (pairs_of cs))) (ids_of cs) state [] ≡ ok (groups, final)
    pub given : result ≡ dedupe_result p w options (canonical_clusters p w options groups) decisions

  pub deduplicate_candidates-Run :
      (candidates : List DedupeCandidate) (result : DedupeResult w.Score)
      → deduplicate_candidates p w options candidates ≡ ok result
      → Run (sorted_candidates w.text_lt candidates) result
  unfolding deduplicate_candidates
  deduplicate_candidates-Run candidates result h =
      let cs = sorted_candidates w.text_lt candidates in
      elim (Result-cases (normalize_all p w options cs)) [
        | inr (why, failed) ↦ absurd (ground arith)
        | inl (_, n) ↦
            elim (Result-cases (
              decide_pairs p w options cs (suc (length (pairs_of cs))) (pairs_of cs)
                (new_disjoint_set (ids_of cs)))) [
                  | inr (why, failed) ↦ absurd (ground arith)
                  | inl ((ds, s), d) ↦
                      elim (Result-cases
                        (group_by_root (suc (length (pairs_of cs))) (ids_of cs) s [])) [
                          | inr (why, failed) ↦ absurd (ground arith)
                          | inl ((gs, t), g) ↦ record {
                            decisions = ds;
                            groups = gs;
                            state = s;
                            final = t;
                            normalized = n;
                            decided = d;
                            grouped = g;
                            given = ground arith;
                          }
                        ]
                ]
      ]

  -- What every run leaves: a forest over the ids, and their groups.
  pub record IsGroupedRun (cs : List DedupeCandidate) (result : DedupeResult w.Score) : Type 0 where
    pub run : Run cs result
    pub decided :
        IsDecided p w options cs
          (ids_of cs)
          (λ x. x)
          (suc (length (pairs_of cs)))
          run.state
          run.decisions
    pub fits : All (Fits (ids_of cs) (roots_after w.text_lt (λ x. x) run.decisions)) run.groups
    pub complete :
        All
          (IsGrouped (ids_of cs) (roots_after w.text_lt (λ x. x) run.decisions) run.groups)
          (ids_of cs)

  pub Run-IsGroupedRun :
      (cs : List DedupeCandidate) (result : DedupeResult w.Score)
      → Run cs result
      → IsGroupedRun cs result
  Run-IsGroupedRun cs result r =
      let ids = ids_of cs in
      let forest = new_disjoint_set-IsForest ids (λ x m. ids-truthy cs x r.normalized m) in
      let d =
        decide_pairs-IsDecided p w options cs ids (λ x. x) 0 (suc (length (pairs_of cs)))
          (pairs_of cs) (new_disjoint_set ids) r.state r.decisions (omega arith)
          (pairs-IsPair ids cs (all_included ids)) forest
          (λ x y a b e unlike. absurd (ground (arith, eq_iff x y))) r.decided in
      let (t, gs, got, fits, complete, kept) =
        group_by_root-IsGrouped ids (roots_after w.text_lt (λ x. x) r.decisions) d.depth_bound
          (suc (length (pairs_of cs))) d.within ids r.state [] d.forest (all_included ids) tt in
      let one : r.groups ≡ gs = ap (λ x. x.0) (ok_injective (sym r.grouped ∙ got)) in
      record { run = r; decided = d; fits = rw one fits; complete = rw one complete }

  cluster-group :
      (gs : Groups) (c : DedupeCluster)
      → Memᴰ c (map (λ g. dedupe_cluster p w options (g.1)) gs)
      → (g : String × List String) × Memᴰ g gs × (c ≡ dedupe_cluster p w options (g.1))
  cluster-group [] c m = elim m [ ]
  cluster-group (g ∷ gs) c (Memᴰ.head e) = (g, Memᴰ.head refl, e)
  cluster-group (g ∷ gs) c (Memᴰ.tail m) =
      let (h, n, e) = cluster-group gs c m in (h, Memᴰ.tail n, e)

  group-cluster :
      (gs : Groups) (g : String × List String)
      → Memᴰ g gs
      → Memᴰ (dedupe_cluster p w options (g.1)) (map (λ g. dedupe_cluster p w options (g.1)) gs)
  group-cluster [] g m = elim m [ ]
  group-cluster (h ∷ gs) g (Memᴰ.head e) = Memᴰ.head (ap (λ x. dedupe_cluster p w options (x.1)) e)
  group-cluster (h ∷ gs) g (Memᴰ.tail m) = Memᴰ.tail (group-cluster gs g m)

  -- The ids of one cluster are ids, and have one root.
  pub cluster-one_root :
      (cs : List DedupeCandidate) (result : DedupeResult w.Score) (g : IsGroupedRun cs result)
      (c : DedupeCluster)
      → Memᴰ c result.clusters
      → (r : String) × ((x : String)
          → includes c.member_candidate_ids x ≡ true
          → (includes (ids_of cs) x ≡ true)
            × (roots_after w.text_lt (λ z. z) g.run.decisions x ≡ r))
  unfolding dedupe_result dedupe_cluster
  cluster-one_root cs result g c m =
      let among : Memᴰ c (canonical_clusters p w options g.run.groups) =
        subst (λ r. Memᴰ c r.clusters) g.run.given m in
      let ((r, ms), n, e) = cluster-group g.run.groups c (sort_by-mem _ c _ among) in
      (
        r,
        λ x inside.
            All-mem (Fits (ids_of cs) (roots_after w.text_lt (λ z. z) g.run.decisions)) (r, ms)
              g.run.groups g.fits n x
              (sym (includes-sort_by (λ a b. not (w.text_lt b a)) ms x) ∙ rw (e) at inside),
      )

  -- Ids of one root are in one cluster.
  pub one_root-cluster :
      (cs : List DedupeCandidate) (result : DedupeResult w.Score) (g : IsGroupedRun cs result)
      (x y : String)
      → includes (ids_of cs) x ≡ true
      → includes (ids_of cs) y ≡ true
      → roots_after w.text_lt (λ z. z) g.run.decisions x
        ≡ roots_after w.text_lt (λ z. z) g.run.decisions y
      → (c : DedupeCluster) × Memᴰ c result.clusters
        × (includes c.member_candidate_ids x ≡ true)
        × (includes c.member_candidate_ids y ≡ true)
  unfolding dedupe_result dedupe_cluster
  one_root-cluster cs result g x y x_in y_in same =
      let rep = roots_after w.text_lt (λ z. z) g.run.decisions in
      let at_root = All-mem (IsGrouped (ids_of cs) rep g.run.groups) in
      let (ms, x_at, a) = at_root x (ids_of cs) g.complete (includes→mem (ids_of cs) x x_in) in
      let (ns, y_at, b) = at_root y (ids_of cs) g.complete (includes→mem (ids_of cs) y y_in) in
      let one : ns ≡ ms = same_group (rep x) (rep y) ms ns g.run.groups same x_at y_at in
      let (r, m) = group_of-mem (rep x) g.run.groups ms x_at in
      (
        dedupe_cluster p w options ms,
        subst (λ r. Memᴰ (dedupe_cluster p w options ms) r.clusters) (sym g.run.given)
            (mem-sort_by _ _ _ (group-cluster g.run.groups (r, ms) m)),
        includes-sort_by (λ a b. not (w.text_lt b a)) ms x ∙ a,
        includes-sort_by (λ a b. not (w.text_lt b a)) ms y ∙ rw one at b,
      )
