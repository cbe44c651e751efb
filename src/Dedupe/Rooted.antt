-- ===== src/Dedupe/Rooted.antt =====
-- What `find`, `union` and `members` of discovery/dedupe.ts compute: `rep` is the root of each id.
use vocation_os.Prelude.{
  ℕ, zero, suc, ◌≤◌, ◌<◌, ◌≡◌, refl, sym, ap, ◌∙◌, ◌⊎◌, inl, inr, Bool, true, false, not, ◌&&◌,
  ◌||◌, List, [], ◌∷◌, ◌++◌, Option, some, String, ◌===◌, includes, ok, arith, Bool-cases, eq_iff,
  includes-sort_by,
}
use vocation_os.Text.{is_truthy}
use vocation_os.Dedupe.Sets.{DisjointSet, with_entry, find_root, add_all, cluster_members, sorted}

pub includes-append :
    (xs ys : List String) (y : String) → includes (xs ++ ys) y ≡ (includes xs y || includes ys y)
includes-append [] ys y = refl
includes-append (x ∷ xs) ys y = ground (arith, includes-append xs ys y)

pub includes-add_all :
    (xs ys : List String) (y : String)
    → includes (add_all xs ys) y ≡ (includes xs y || includes ys y)
unfolding add_all
includes-add_all xs [] y = ground arith
includes-add_all xs (x ∷ ys) y = elim (Bool-cases (includes xs x)) [
  | inl old ↦ rw old (rw (includes-add_all xs ys y) (ground (arith, eq_iff x y)))
  | inr new ↦
      rw new
        (rw (includes-add_all (xs ++ x ∷ []) ys y, includes-append xs (x ∷ []) y) (ground arith))
]

-- A parent of `x` has its root, and stands nearer to it, or `x` is the root.
abbrev pub Points : List String → (String → String) → (String → ℕ) → String → String → Type 0
Points ids rep depth x y =
    (includes ids y ≡ true)
    × (rep y ≡ rep x)
    × (((y ≡ x) × (rep x ≡ x)) ⊎ (((y === x) ≡ false) × (depth y < depth x)))

abbrev pub IsRoot : List String → (String → String) → (String → ℕ) → ℕ → String → Type 0
IsRoot ids rep depth bound x =
    (includes ids (rep x) ≡ true)
    × (rep (rep x) ≡ rep x)
    × (depth (rep x) ≡ 0)
    × (depth x ≤ bound)
    × ((rep x ≡ x) ⊎ (0 < depth x))

-- The table of parents is a forest with these roots, no deeper than `bound`.
pub record Rooted (ids : List String) (parents : String → Option String) (rep : String → String)
    (depth : String → ℕ) (bound : ℕ) : Type 0 where
  pub parent :
      (x : String)
      → includes ids x ≡ true
      → (y : String) × (parents x ≡ some y) × Points ids rep depth x y
  pub root : (x : String) → includes ids x ≡ true → IsRoot ids rep depth bound x
  pub truthy : (x : String) → includes ids x ≡ true → is_truthy x ≡ true

-- The table of members has, at each root, the ids of that root.
abbrev pub Clustered : List String → (String → Option (List String)) → (String → String) → Type 0
Clustered ids members_by_root rep =
    (x : String)
    → includes ids x ≡ true
    → (ms : List String) × (members_by_root (rep x) ≡ some ms)
      × ((y : String) → includes ms y ≡ (includes ids y && rep y === rep x))

module _ (ids : List String) (rep : String → String) (depth : String → ℕ) (bound : ℕ) where
  shortened :
      {q : String → Option String} (x y : String)
      → Rooted ids q rep depth bound
      → includes ids x ≡ true
      → x ≡ y
      → Points ids rep depth y (rep x)
  shortened x y r m e =
      let (inside, twice, at_zero, low, how) = r.root x m in
      (
        inside,
        twice ∙ ap rep e,
        elim (Bool-cases (rep x === y)) [
          | inl top ↦ let t : rep x ≡ y = (eq_iff (rep x) y).0 top in inl (t, sym (ap rep e) ∙ t)
          | inr deep ↦ elim how [
            | inl fixed ↦ absurd (ground (arith, eq_iff (rep x) y))
            | inr below ↦ inr (deep, rw at_zero (rw (← ap depth e) below))
          ]
        ],
      )

  -- A shortened path.
  with_entry-Rooted :
      (q : String → Option String) (x : String)
      → Rooted ids q rep depth bound
      → includes ids x ≡ true
      → Rooted ids (with_entry x (some (rep x)) q) rep depth bound
  unfolding with_entry
  with_entry-Rooted q x r m = record {
    parent = λ y n. elim (Bool-cases (x === y)) [
      | inr other ↦ let (z, at, points) = r.parent y n in (z, rw other at, points)
      | inl same ↦ let e : x ≡ y = (eq_iff x y).0 same in (rep x, rw same, shortened x y r m e)
    ];
    root = r.root;
    truthy = r.truthy;
  }

  -- `find` gives the root, and leaves a forest with the same roots.
  abbrev pub Finds : ℕ → String → DisjointSet → Type 0
  Finds rounds x s =
      (q : String → Option String) × (find_root rounds x s ≡ ok (rep x, record s { parents = q }))
      × Rooted ids q rep depth bound

  pub find_root-Rooted :
      (rounds : ℕ) (x : String) (s : DisjointSet)
      → Rooted ids s.parents rep depth bound
      → includes ids x ≡ true
      → depth x < rounds
      → Finds rounds x s
  unfolding find_root
  find_root-Rooted zero x s r m low = absurd (omega arith)
  find_root-Rooted (suc rounds) x s r m low =
      let (y, at, points) = r.parent x m in
      let (inside, same, how) = points in
      elim how [
        | inl (e, fixed) ↦
            (s.parents, ground (arith, at, r.truthy y inside, eq_iff y x, e, fixed), r)
        | inr (other, nearer) ↦
            let (q, found, r') = find_root-Rooted rounds y s r inside (omega arith) in
            (
              with_entry x (some (rep x)) q,
              rw (at, r.truthy y inside, other, found, same) refl,
              with_entry-Rooted q x r' m,
            )
      ]

  pub cluster_members-Rooted :
      (text_lt : String → String → Bool) (rounds : ℕ) (x : String) (s : DisjointSet)
      → Rooted ids s.parents rep depth bound
      → Clustered ids s.members_by_root rep
      → includes ids x ≡ true
      → depth x < rounds
      → (q : String → Option String) × (ms : List String) × (cluster_members text_lt rounds x s
          ≡ ok (ms, record s { parents = q }))
        × Rooted ids q rep depth bound
        × ((y : String) → includes ms y ≡ (includes ids y && rep y === rep x))
  unfolding cluster_members
  cluster_members-Rooted text_lt rounds x s r c m low =
      let (q, found, r') = find_root-Rooted rounds x s r m low in
      let (ms, at, holds) = c x m in
      (
        q,
        sorted text_lt ms,
        rw (found, at) refl,
        r',
        λ y. includes-sort_by (λ a b. not (text_lt b a)) ms y ∙ holds y,
      )
