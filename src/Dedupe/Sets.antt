-- ===== src/Dedupe/Sets.antt =====
-- discovery/dedupe.ts: the class `DisjointSet`. Its maps are functions, and `find`, which shortens the
-- paths it follows, takes a bound on their length.
use vocation_os.Prelude.{
  ℕ, zero, suc, Bool, true, false, not, List, [], ◌∷◌, ◌++◌, Option, none, some, String, ◌===◌,
  if◌then◌else◌, includes, ok, err, ◌>>=◌, ◌>>◌, or_throw, throw_if, sort_by,
}
use vocation_os.Text.{is_truthy}
use vocation_os.Dedupe.{candidate_unknown, cluster_corrupt, out_of_rounds, Outcome}

pub record DisjointSet : Type 0 where
  pub parents : String → Option String
  pub members_by_root : String → Option (List String)

-- `map.set(key, value)`, and `map.delete(key)` with `none`.
unfoldable pub with_entry :
    {A : Type 0} → String → Option A → (String → Option A) → String → Option A
with_entry key value m other = if key === other then value else m other

-- `new DisjointSet(ids)`
unfoldable pub new_disjoint_set : List String → DisjointSet
new_disjoint_set ids = record {
  parents = λ id. if includes ids id then some id else none;
  members_by_root = λ id. if includes ids id then some (id ∷ []) else none;
}

abbrev pub Found : Type 0 → Type 0
Found A = Outcome (A × DisjointSet)

-- `find`
unfoldable pub find_root : ℕ → (id : String) → DisjointSet → Found String
unfolding with_entry
find_root zero id s = err out_of_rounds
find_root (suc rounds) id s = do
  parent ← or_throw (s.parents id) candidate_unknown
  throw_if (not (is_truthy parent)) candidate_unknown
  elim (parent === id) [
    | true ↦ ok (id, s)
    | false ↦ find_root rounds parent s >>= λ (root, t).
        ok (root, record t { parents = with_entry id (some root) t.parents })
  ]

-- `for (const member of second) first.add(member)`
unfoldable pub add_all : (first second : List String) → List String
add_all first [] = first
add_all first (x ∷ xs) = add_all (if includes first x then first else first ++ x ∷ []) xs

-- `union` of two roots, the smaller one first.
unfoldable pub join_roots : (first second : String) → DisjointSet → Found (Unit {0})
unfolding with_entry add_all
join_roots first second s = do
  ours ← or_throw (s.members_by_root first) cluster_corrupt
  theirs ← or_throw (s.members_by_root second) cluster_corrupt
  ok (
    tt,
    record {
      parents = with_entry second (some first) s.parents;
      members_by_root =
          with_entry second none (with_entry first (some (add_all ours theirs)) s.members_by_root);
    },
  )

module _ (text_lt : String → String → Bool) where
  -- The rest of `union`, once both roots are found.
  unfoldable pub join_found : (left_root right_root : String) → DisjointSet → Found (Unit {0})
  unfolding join_roots
  join_found left_root right_root s = elim (left_root === right_root) [
    | true ↦ ok (tt, s)
    | false ↦ elim (text_lt right_root left_root) [
      | true ↦ join_roots right_root left_root s
      | false ↦ join_roots left_root right_root s
    ]
  ]

  -- `union`
  unfoldable pub union : ℕ → (left right : String) → DisjointSet → Found (Unit {0})
  unfolding find_root join_found
  union rounds left right s = do
    (left_root, s1) ← find_root rounds left s
    (right_root, s2) ← find_root rounds right s1
    join_found left_root right_root s2

  -- `[...members].sort(compareText)`
  abbrev pub sorted : List String → List String
  sorted = sort_by (λ x y. not (text_lt y x))

  -- `members`
  unfoldable pub cluster_members : ℕ → (id : String) → DisjointSet → Found (List String)
  unfolding find_root
  cluster_members rounds id s = do
    (root, t) ← find_root rounds id s
    found ← or_throw (t.members_by_root root) cluster_corrupt
    ok (sorted found, t)
