-- ===== src/Dedupe/Deduplicated.antt =====
-- `deduplicateCandidates` of discovery/dedupe.ts: what its clusters are, and that none is in conflict.
use vocation_os.Prelude.{
  ◌≡◌, ◌≢◌, refl, sym, ap, ◌∙◌, ◌⊎◌, ◌↔◌, inl, inr, Bool, true, false, not, ◌||◌, List, [], ◌∷◌,
  some, String, ◌===◌, includes, find-mem, find_holds, ok, arith, eq_iff, insert_by, sort_by,
  sort_by-mem,
}
use mathlib.Core.List.{Memᴰ}
use vocation_os.Runtime.{Platform}
use vocation_os.Dedupe.{WebRuntime, DedupeCandidate, DedupeOptions, DedupeDecision}
use vocation_os.Dedupe.Pair.{evaluate_dedupe_pair, is_hard_identity_conflict}
use vocation_os.Dedupe.Linked.{Linked, Linked-one_root, one_root-Linked}
use vocation_os.Dedupe.Checked.{IsAllowed}
use vocation_os.Dedupe.Clusters.{
  DedupeCluster, DedupeResult, dedupe_cluster, dedupe_result, candidate_of, sorted_candidates,
  ids_of, deduplicate_candidates,
}
use vocation_os.Dedupe.Runs.{
  deduplicate_candidates-Run, Run-IsGroupedRun, cluster-one_root, one_root-cluster,
}

module _ (p : Platform) (w : WebRuntime) (options : DedupeOptions w.Score) where
  ids-insert_by :
      (le : DedupeCandidate → DedupeCandidate → Bool) (c : DedupeCandidate)
      (cs : List DedupeCandidate) (x : String)
      → includes (ids_of (insert_by le c cs)) x ≡ (c.candidate_id === x || includes (ids_of cs) x)
  unfolding insert_by
  ids-insert_by le c [] x = refl
  ids-insert_by le c (d ∷ cs) x = ground (arith, ids-insert_by le c cs x)

  ids-sort_by :
      (le : DedupeCandidate → DedupeCandidate → Bool) (cs : List DedupeCandidate) (x : String)
      → includes (ids_of (sort_by le cs)) x ≡ includes (ids_of cs) x
  unfolding sort_by
  ids-sort_by le [] x = refl
  ids-sort_by le (c ∷ cs) x = rw (ids-insert_by le c (sort_by le cs) x, ids-sort_by le cs x) refl

  -- Two of the candidates have these ids, and their pair was evaluated and is in no hard conflict.
  pub record IsCompatible (candidates : List DedupeCandidate) (x y : String) : Type 0 where
    pub left : DedupeCandidate
    pub right : DedupeCandidate
    pub decision : DedupeDecision w.Score
    pub left_given : Memᴰ left candidates
    pub right_given : Memᴰ right candidates
    pub left_id : left.candidate_id ≡ x
    pub right_id : right.candidate_id ≡ y
    pub evaluated : evaluate_dedupe_pair p w options left right ≡ ok decision
    pub soft : is_hard_identity_conflict decision ≡ false

  candidate_of-given :
      (candidates : List DedupeCandidate) (x : String) (c : DedupeCandidate)
      → candidate_of (sorted_candidates w.text_lt candidates) x ≡ some c
      → Memᴰ c candidates × (c.candidate_id ≡ x)
  candidate_of-given candidates x c h = (
    sort_by-mem _ c candidates
        (find-mem (λ c. c.candidate_id === x) (sorted_candidates w.text_lt candidates) c h),
    (eq_iff c.candidate_id x).0
        (find_holds (λ c. c.candidate_id === x) (sorted_candidates w.text_lt candidates) c h),
  )

  IsAllowed-IsCompatible :
      (candidates : List DedupeCandidate) (x y : String)
      → IsAllowed p w options (sorted_candidates w.text_lt candidates) x y
      → IsCompatible candidates x y
  IsAllowed-IsCompatible candidates x y a =
      let (l_given, l_id) = candidate_of-given candidates x a.left a.left_found in
      let (r_given, r_id) = candidate_of-given candidates y a.right a.right_found in
      record {
        left = a.left;
        right = a.right;
        decision = a.decision;
        left_given = l_given;
        right_given = r_given;
        left_id = l_id;
        right_id = r_id;
        evaluated = a.evaluated;
        soft = a.soft;
      }

  -- No cluster holds two candidates in a hard conflict: of two different ids of a cluster, the
  -- candidates were evaluated, one way round, and found in none.
  pub deduplicate_candidates-IsCompatible :
      (candidates : List DedupeCandidate) (result : DedupeResult w.Score) (c : DedupeCluster)
      (x y : String)
      → deduplicate_candidates p w options candidates ≡ ok result
      → Memᴰ c result.clusters
      → includes c.member_candidate_ids x ≡ true
      → includes c.member_candidate_ids y ≡ true
      → x ≢ y
      → IsCompatible candidates x y ⊎ IsCompatible candidates y x
  deduplicate_candidates-IsCompatible candidates result c x y h m a b unlike =
      let cs = sorted_candidates w.text_lt candidates in
      let g =
        Run-IsGroupedRun p w options cs result
          (deduplicate_candidates-Run p w options candidates result h) in
      let (r, members) = cluster-one_root p w options cs result g c m in
      let (x_in, x_root) = members x a in
      let (y_in, y_root) = members y b in
      elim (g.decided.no_conflict x y x_in y_in (x_root ∙ sym y_root)
        (ground (arith, unlike, eq_iff x y))) [
          | inl one ↦ inl (IsAllowed-IsCompatible candidates x y one)
          | inr two ↦ inr (IsAllowed-IsCompatible candidates y x two)
        ]

  -- The clusters are what the decisions to merge connect: two candidates are in one cluster exactly if
  -- a chain of such decisions leads from one to the other.
  pub deduplicate_candidates-Linked :
      (candidates : List DedupeCandidate) (result : DedupeResult w.Score) (x y : String)
      → deduplicate_candidates p w options candidates ≡ ok result
      → includes (ids_of candidates) x ≡ true
      → includes (ids_of candidates) y ≡ true
      → ((c : DedupeCluster) × Memᴰ c result.clusters
          × (includes c.member_candidate_ids x ≡ true)
          × (includes c.member_candidate_ids y ≡ true))
        ↔ Linked (λ z. z) result.decisions x y
  unfolding dedupe_result dedupe_cluster
  deduplicate_candidates-Linked candidates result x y h x_in y_in =
      let cs = sorted_candidates w.text_lt candidates in
      let g =
        Run-IsGroupedRun p w options cs result
          (deduplicate_candidates-Run p w options candidates result h) in
      let one : result.decisions ≡ g.run.decisions = ap (λ r. r.decisions) g.run.given in
      (
        λ (c, m, a, b).
            let (r, members) = cluster-one_root p w options cs result g c m in
            rw one (
              one_root-Linked w.text_lt (λ z. z) g.run.decisions x y
                ((members x a).1 ∙ sym ((members y b).1))),
        λ linked.
            one_root-cluster p w options cs result g x y
              (ids-sort_by (λ a b. not (w.text_lt b.candidate_id a.candidate_id)) candidates x
                ∙ x_in)
              (ids-sort_by (λ a b. not (w.text_lt b.candidate_id a.candidate_id)) candidates y
                ∙ y_in)
              (Linked-one_root w.text_lt (rw one at linked)),
      )
