-- ===== src/Dedupe/Merged.antt =====
-- `find`, `union` and `members` of discovery/dedupe.ts on a forest: they never fail, and take no more
-- rounds than unions were made.
use vocation_os.Prelude.{
  ℕ, suc, ◌<◌, ◌≡◌, refl, sym, ◌∙◌, ◌⊎◌, inl, inr, Bool, true, ◌&&◌, List, [], ◌∷◌, String, ◌===◌,
  if◌then◌else◌, includes, ok, arith, Bool-cases, eq_iff, eq_refl,
}
use vocation_os.Text.{is_truthy}
use vocation_os.Dedupe.{DedupeDecision}
use vocation_os.Dedupe.Clusters.{is_merge}
use vocation_os.Dedupe.Sets.{
  DisjointSet, new_disjoint_set, find_root, join_found, union, cluster_members,
}
use vocation_os.Dedupe.Rooted.{find_root-Rooted, cluster_members-Rooted}
use vocation_os.Dedupe.Joined.{unlike-sym, joined, IsForest, join_roots-IsForest}

-- The roots after `union left right`.
unfoldable pub merged :
    (text_lt : String → String → Bool)
    → (rep : String → String) → (left right : String) → String
    → String
merged text_lt rep left right =
    if rep left === rep right
    then rep
    else if text_lt (rep right) (rep left)
    then joined (rep right) (rep left) rep
    else joined (rep left) (rep right) rep

alone :
    (ids : List String) (x y : String)
    → includes ids x ≡ true
    → includes (x ∷ []) y ≡ (includes ids y && y === x)
alone ids x y m = elim (Bool-cases (x === y)) [
  | inl same ↦ (let e : x ≡ y = (eq_iff x y).0 same in rw (← e) (rw (m, eq_refl x) refl))
  | inr other ↦ rw (other, unlike-sym x y other) (ground arith)
]

-- Every id is its own root at first.
pub new_disjoint_set-IsForest :
    (ids : List String)
    → ((x : String) → includes ids x ≡ true → is_truthy x ≡ true)
    → IsForest ids (new_disjoint_set ids) (λ x. x) 0
unfolding new_disjoint_set
new_disjoint_set-IsForest ids truthy = record {
  depth = λ x. 0;
  rooted = record {
    parent = λ x m. (x, rw m refl, (m, refl, inl (refl, refl)));
    root = λ x m. (m, refl, refl, omega arith, inl refl);
    truthy = truthy;
  };
  clustered = λ x m. (x ∷ [], rw m refl, λ y. alone ids x y m);
}

pub IsForest-loosened :
    (ids : List String) (rep : String → String) (bound : ℕ) (s : DisjointSet)
    → IsForest ids s rep bound
    → IsForest ids s rep (suc bound)
IsForest-loosened ids rep bound s f = record {
  depth = f.depth;
  rooted = record {
    parent = f.rooted.parent;
    root = λ x m.
        let (inside, twice, at_zero, low, how) = f.rooted.root x m in
        (inside, twice, at_zero, omega arith, how);
    truthy = f.rooted.truthy;
  };
  clustered = f.clustered;
}

module _ (ids : List String) (rep : String → String) (bound rounds : ℕ)
    (enough : bound < rounds) where
  IsForest-in_rounds :
      (s : DisjointSet) (x : String) (f : IsForest ids s rep bound)
      → includes ids x ≡ true
      → f.depth x < rounds
  IsForest-in_rounds s x f m =
      let (inside, twice, at_zero, low, how) = f.rooted.root x m in omega (arith, low, enough)

  pub find_root-IsForest :
      (s : DisjointSet) (x : String)
      → IsForest ids s rep bound
      → includes ids x ≡ true
      → (t : DisjointSet) × (find_root rounds x s ≡ ok (rep x, t)) × IsForest ids t rep bound
  find_root-IsForest s x f m =
      let (q, found, r) =
        find_root-Rooted ids rep f.depth bound rounds x s f.rooted m (IsForest-in_rounds s x f m) in
      (
        record s { parents = q },
        found,
        record { depth = f.depth; rooted = r; clustered = f.clustered },
      )

  pub cluster_members-IsForest :
      (text_lt : String → String → Bool) (s : DisjointSet) (x : String)
      → IsForest ids s rep bound
      → includes ids x ≡ true
      → (t : DisjointSet) × (ms : List String) × (cluster_members text_lt rounds x s ≡ ok (ms, t))
        × IsForest ids t rep bound
        × ((y : String) → includes ms y ≡ (includes ids y && rep y === rep x))
  cluster_members-IsForest text_lt s x f m =
      let (q, ms, found, r, holds) =
        cluster_members-Rooted ids rep f.depth bound text_lt rounds x s f.rooted f.clustered m
          (IsForest-in_rounds s x f m) in
      (
        record s { parents = q },
        ms,
        found,
        record { depth = f.depth; rooted = r; clustered = f.clustered },
        holds,
      )

  IsForest-top :
      (s : DisjointSet) (x : String)
      → IsForest ids s rep bound
      → includes ids x ≡ true
      → (includes ids (rep x) ≡ true) × (rep (rep x) ≡ rep x)
  IsForest-top s x f m =
      let (inside, twice, at_zero, low, how) = f.rooted.root x m in (inside, twice)

  join_found-IsForest :
      (text_lt : String → String → Bool) (s : DisjointSet) (left right : String)
      → IsForest ids s rep bound
      → includes ids left ≡ true
      → includes ids right ≡ true
      → (t : DisjointSet) × (join_found text_lt (rep left) (rep right) s ≡ ok (tt, t))
        × IsForest ids t (merged text_lt rep left right) (suc bound)
  unfolding merged join_found
  join_found-IsForest text_lt s left right f l_in r_in =
      let (l_inside, l_top) = IsForest-top s left f l_in in
      let (r_inside, r_top) = IsForest-top s right f r_in in
      elim (Bool-cases (rep left === rep right)) [
        | inl same ↦ (s, rw (same, join_found) refl, rw same (IsForest-loosened ids rep bound s f))
        | inr apart ↦ elim (Bool-cases (text_lt (rep right) (rep left))) [
          | inl swapped ↦
              let (t, done, next) =
                join_roots-IsForest ids rep bound (rep right) (rep left) r_inside l_inside r_top
                  l_top (unlike-sym (rep left) (rep right) apart) s f in
              (t, rw (apart, swapped, join_found) done, rw (apart, swapped) next)
          | inr ordered ↦
              let (t, done, next) =
                join_roots-IsForest ids rep bound (rep left) (rep right) l_inside r_inside l_top
                  r_top apart s f in
              (t, rw (apart, ordered, join_found) done, rw (apart, ordered) next)
        ]
      ]

  pub union-IsForest :
      (text_lt : String → String → Bool) (s : DisjointSet) (left right : String)
      → IsForest ids s rep bound
      → includes ids left ≡ true
      → includes ids right ≡ true
      → (t : DisjointSet) × (union text_lt rounds left right s ≡ ok (tt, t))
        × IsForest ids t (merged text_lt rep left right) (suc bound)
  unfolding union
  union-IsForest text_lt s left right f l_in r_in =
      let (t1, found_left, f1) = find_root-IsForest s left f l_in in
      let (t2, found_right, f2) = find_root-IsForest t1 right f1 r_in in
      let (t, done, next) = join_found-IsForest text_lt t2 left right f2 l_in r_in in
      (t, rw (found_left, found_right) done, next)

-- Of two ids with one root afterwards, each had the root of the other or of one side of the union.
abbrev pub Met : (rep : String → String) → (first second x y : String) → Type 0
Met rep first second x y =
    (rep x ≡ rep y) ⊎ ((rep x ≡ first) × (rep y ≡ second)) ⊎ ((rep x ≡ second) × (rep y ≡ first))

joined-Met :
    (first second : String) (rep : String → String) (x y : String)
    → joined first second rep x ≡ joined first second rep y
    → Met rep first second x y
joined-Met first second rep x y h = elim (Bool-cases (rep x === second)) [
  | inl a ↦ elim (Bool-cases (rep y === second)) [
    | inl b ↦ inl ((eq_iff (rep x) second).0 a ∙ sym ((eq_iff (rep y) second).0 b))
    | inr b ↦ inr (inr ((eq_iff (rep x) second).0 a, sym (rw (a, b) at h)))
  ]
  | inr a ↦ elim (Bool-cases (rep y === second)) [
    | inl b ↦ inr (inl (rw (a, b) at h, (eq_iff (rep y) second).0 b))
    | inr b ↦ inl (rw (a, b) at h)
  ]
]

pub merged-Met :
    (text_lt : String → String → Bool) (rep : String → String) (left right x y : String)
    → merged text_lt rep left right x ≡ merged text_lt rep left right y
    → Met rep (rep left) (rep right) x y
unfolding merged
merged-Met text_lt rep left right x y h = elim (Bool-cases (rep left === rep right)) [
  | inl same ↦ inl (rw same at h)
  | inr apart ↦ elim (Bool-cases (text_lt (rep right) (rep left))) [
    | inl swapped ↦ elim (joined-Met (rep right) (rep left) rep x y (rw (apart, swapped) at h)) [
      | inl e ↦ inl e
      | inr (inl e) ↦ inr (inr e)
      | inr (inr e) ↦ inr (inl e)
    ]
    | inr ordered ↦ joined-Met (rep left) (rep right) rep x y (rw (apart, ordered) at h)
  ]
]

-- Ids with one root keep one.
pub merged-kept :
    (text_lt : String → String → Bool) (rep : String → String) (left right x y : String)
    → rep x ≡ rep y
    → merged text_lt rep left right x ≡ merged text_lt rep left right y
unfolding merged
merged-kept text_lt rep left right x y e = elim (Bool-cases (rep left === rep right)) [
  | inl same ↦ rw same e
  | inr apart ↦ elim (Bool-cases (text_lt (rep right) (rep left))) [
    | inl swapped ↦ rw (apart, swapped, e) refl
    | inr ordered ↦ rw (apart, ordered, e) refl
  ]
]

-- The two ids have one root afterwards.
pub merged-united :
    (text_lt : String → String → Bool) (rep : String → String) (left right : String)
    → merged text_lt rep left right left ≡ merged text_lt rep left right right
unfolding merged
merged-united text_lt rep left right = elim (Bool-cases (rep left === rep right)) [
  | inl same ↦ rw same ((eq_iff (rep left) (rep right)).0 same)
  | inr apart ↦ elim (Bool-cases (text_lt (rep right) (rep left))) [
    | inl swapped ↦
        rw (apart, swapped, eq_refl (rep left), unlike-sym (rep left) (rep right) apart) refl
    | inr ordered ↦ rw (apart, ordered, eq_refl (rep right), apart) refl
  ]
]

module _ {S : Type 0} (text_lt : String → String → Bool) where
  -- The roots after a decision.
  abbrev pub next_roots : (String → String) → DedupeDecision S → String → String
  next_roots rep d =
      if is_merge d.outcome
      then merged text_lt rep d.left_candidate_id d.right_candidate_id
      else rep

  -- The roots after some decisions.
  unfoldable pub roots_after : (String → String) → List (DedupeDecision S) → String → String
  roots_after rep [] = rep
  roots_after rep (d ∷ ds) = roots_after (next_roots rep d) ds
