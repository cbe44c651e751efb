-- ===== src/Dedupe/Joined.antt =====
-- What `union` of discovery/dedupe.ts does to the roots of the ids.
use vocation_os.Prelude.{
  ℕ, suc, ◌≡◌, refl, sym, ap, ◌∙◌, inl, inr, true, false, ◌&&◌, List, Option, none, some, String,
  ◌===◌, if◌then◌else◌, includes, ok, arith, Bool-cases, eq_iff, eq_refl,
}
use vocation_os.Dedupe.Sets.{DisjointSet, with_entry, add_all, join_roots}
use vocation_os.Dedupe.Rooted.{Rooted, Clustered, Points, IsRoot, includes-add_all}

pub unlike-sym : (s t : String) → (s === t) ≡ false → (t === s) ≡ false
unlike-sym s t h = ground (arith, eq_iff s t, eq_iff t s)

-- The roots after the second root was put below the first.
abbrev pub joined : (first second : String) → (String → String) → String → String
joined first second rep x = if rep x === second then first else rep x

abbrev pub sunk : (second : String) → (String → String) → (String → ℕ) → String → ℕ
sunk second rep depth x = if rep x === second then suc (depth x) else depth x

-- The table of members after the union.
abbrev merged_members :
    (first second : String)
    → List String
    → (String → Option (List String))
    → String
    → Option (List String)
merged_members first second both table = with_entry second none (with_entry first (some both) table)

module _ (ids : List String) (rep : String → String) (depth : String → ℕ) (bound : ℕ)
    (first second : String) (first_in : includes ids first ≡ true)
    (second_in : includes ids second ≡ true) (first_top : rep first ≡ first)
    (second_top : rep second ≡ second) (apart : (first === second) ≡ false) where
  top_apart : (rep first === second) ≡ false
  top_apart = rw first_top apart

  first_zero : (q : String → Option String) → Rooted ids q rep depth bound → depth first ≡ 0
  first_zero q r =
      let (inside, twice, at_zero, low, how) = r.root first first_in in
      ap depth (sym first_top) ∙ at_zero

  join-second :
      (q : String → Option String) (x : String)
      → Rooted ids q rep depth bound
      → second ≡ x
      → Points ids (joined first second rep) (sunk second rep depth) x first
  join-second q x r e =
      let under : (rep x === second) ≡ true =
        (eq_iff (rep x) second).1 (ap rep (sym e) ∙ second_top) in
      (
        first_in,
        rw (top_apart, under) first_top,
        inr (rw (← e) apart, rw (top_apart, under, first_zero q r) (omega arith)),
      )

  join-parent :
      (q : String → Option String) (x : String)
      → Rooted ids q rep depth bound
      → includes ids x ≡ true
      → (y : String) × (with_entry second (some first) q x ≡ some y)
        × Points ids (joined first second rep) (sunk second rep depth) x y
  unfolding with_entry
  join-parent q x r m = elim (Bool-cases (second === x)) [
    | inl same ↦ (first, rw same, join-second q x r ((eq_iff second x).0 same))
    | inr other ↦
        let (y, at, points) = r.parent x m in
        let (inside, one, how) = points in
        (
          y,
          rw other at,
          (
            inside,
            rw one refl,
            elim how [
              | inl (e, fixed) ↦ inl (e, ground (arith, eq_iff x second, eq_iff second x))
              | inr (unlike, nearer) ↦ inr (unlike, rw one (ground arith))
            ],
          ),
        )
  ]

  join-IsRoot :
      (q : String → Option String) (x : String)
      → Rooted ids q rep depth bound
      → includes ids x ≡ true
      → IsRoot ids (joined first second rep) (sunk second rep depth) (suc bound) x
  join-IsRoot q x r m =
      let (inside, twice, at_zero, low, how) = r.root x m in
      elim (Bool-cases (rep x === second)) [
        | inl under ↦
            rw (under, top_apart)
              (first_in, first_top, first_zero q r, omega arith, inr (omega arith))
        | inr other ↦ rw (other, twice, other) (inside, refl, at_zero, omega arith, how)
      ]

  join-Rooted :
      (q : String → Option String)
      → Rooted ids q rep depth bound
      → Rooted ids
          (with_entry second (some first) q)
          (joined first second rep)
          (sunk second rep depth)
          (suc bound)
  join-Rooted q r = record {
    parent = λ x m. join-parent q x r m;
    root = λ x m. join-IsRoot q x r m;
    truthy = r.truthy;
  }

  -- The members that the two roots had, together.
  union_holds :
      (ours theirs : List String) (y : String)
      → ((y : String) → includes ours y ≡ (includes ids y && rep y === rep first))
      → ((y : String) → includes theirs y ≡ (includes ids y && rep y === rep second))
      → includes (add_all ours theirs) y ≡ (includes ids y && joined first second rep y === first)
  union_holds ours theirs y a b =
      rw (includes-add_all ours theirs y, a y, b y, first_top, second_top)
        (ground (arith, eq_refl first))

  joined_elsewhere :
      (x : String)
      → (joined first second rep x === first) ≡ false
      → ((rep x === second) ≡ false) × ((rep x === first) ≡ false)
  joined_elsewhere x other = elim (Bool-cases (rep x === second)) [
    | inl under ↦ absurd (ground (arith, eq_refl first))
    | inr loose ↦ (loose, ground arith)
  ]

  joined-same_as :
      (x y : String)
      → (rep x === second) ≡ false
      → (rep x === first) ≡ false
      → (joined first second rep y === rep x) ≡ (rep y === rep x)
  joined-same_as x y loose spare = elim (Bool-cases (rep y === second)) [
    | inl under ↦ rw under (
        rw
          (
            (eq_iff (rep y) second).0 under,
            unlike-sym (rep x) first spare,
            unlike-sym (rep x) second loose,
          )
          refl)
    | inr other ↦ rw other refl
  ]

  join-Clustered :
      (table : String → Option (List String)) (ours theirs : List String)
      → Clustered ids table rep
      → ((y : String) → includes ours y ≡ (includes ids y && rep y === rep first))
      → ((y : String) → includes theirs y ≡ (includes ids y && rep y === rep second))
      → Clustered ids
          (merged_members first second (add_all ours theirs) table)
          (joined first second rep)
  unfolding with_entry
  join-Clustered table ours theirs c a b x m =
      elim (Bool-cases (joined first second rep x === first)) [
        | inl same ↦ (
          add_all ours theirs,
          rw ((eq_iff (joined first second rep x) first).0 same)
              (rw (unlike-sym first second apart, eq_refl first) refl),
          λ y.
              rw ((eq_iff (joined first second rep x) first).0 same)
                (union_holds ours theirs y a b),
        )
        | inr other ↦
            let (ms, at, holds) = c x m in
            let (loose, spare) = joined_elsewhere x other in
            (
              ms,
              rw (loose, unlike-sym (rep x) second loose, unlike-sym (rep x) first spare) at,
              λ y. rw loose (rw (holds y, joined-same_as x y loose spare) refl),
            )
      ]

-- A disjoint set over the ids, in which no path is longer than `bound`.
pub record IsForest (ids : List String) (s : DisjointSet) (rep : String → String) (bound : ℕ)
    : Type 0 where
  pub depth : String → ℕ
  pub rooted : Rooted ids s.parents rep depth bound
  pub clustered : Clustered ids s.members_by_root rep

module _ (ids : List String) (rep : String → String) (bound : ℕ) (first second : String)
    (first_in : includes ids first ≡ true) (second_in : includes ids second ≡ true)
    (first_top : rep first ≡ first) (second_top : rep second ≡ second)
    (apart : (first === second) ≡ false) where
  pub join_roots-IsForest :
      (s : DisjointSet)
      → IsForest ids s rep bound
      → (t : DisjointSet) × (join_roots first second s ≡ ok (tt, t))
        × IsForest ids t (joined first second rep) (suc bound)
  unfolding join_roots
  join_roots-IsForest s f =
      let (ours, at_first, a) = f.clustered first first_in in
      let (theirs, at_second, b) = f.clustered second second_in in
      (
        record {
          parents = with_entry second (some first) s.parents;
          members_by_root = merged_members first second (add_all ours theirs) s.members_by_root;
        },
        rw (← ap s.members_by_root first_top, at_first)
            (rw (← ap s.members_by_root second_top, at_second) refl),
        record {
          depth = sunk second rep f.depth;
          rooted =
              join-Rooted ids rep f.depth bound first second first_in second_in first_top second_top
                apart s.parents f.rooted;
          clustered =
              join-Clustered ids rep f.depth bound first second first_in second_in first_top
                second_top apart s.members_by_root ours theirs f.clustered a b;
        },
      )
