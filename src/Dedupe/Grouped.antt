-- ===== src/Dedupe/Grouped.antt =====
-- The last loop of `deduplicateCandidates` in discovery/dedupe.ts: the ids are grouped by their roots.
use vocation_os.Prelude.{
  ℕ, ◌<◌, ◌≡◌, refl, sym, ap, inl, inr, true, List, [], ◌∷◌, ◌++◌, Option, none, some, String,
  ◌===◌, if◌then◌else◌, includes, ok, arith, Bool-cases, All, eq_iff, eq_refl,
}
use mathlib.Core.List.{Memᴰ}
use vocation_os.Dedupe.Sets.{DisjointSet}
use vocation_os.Dedupe.Rooted.{includes-append}
use vocation_os.Dedupe.Joined.{IsForest}
use vocation_os.Dedupe.Merged.{find_root-IsForest}
use vocation_os.Dedupe.Clusters.{Groups, add_to_group, group_by_root}

-- The ids that are grouped under a root.
abbrev pub group_of : String → Groups → Option (List String)
group_of root [] = none
group_of root ((r, ms) ∷ gs) = if r === root then some ms else group_of root gs

pub group_of-mem :
    (root : String) (gs : Groups) (ms : List String)
    → group_of root gs ≡ some ms
    → (r : String) × Memᴰ (r, ms) gs
group_of-mem root [] ms h = cc
group_of-mem root ((r, ns) ∷ gs) ms h = elim (Bool-cases (r === root)) [
  | inl here ↦ (r, Memᴰ.head (ap (λ xs. (r, xs)) (ground arith)))
  | inr later ↦ let (q, m) = group_of-mem root gs ms (ground arith) in (q, Memᴰ.tail m)
]

module _ (ids : List String) (rep : String → String) where
  -- The ids of a group are ids, and have its root.
  abbrev pub Fits : String × List String → Type 0
  Fits (r, ms) = (y : String) → includes ms y ≡ true → (includes ids y ≡ true) × (rep y ≡ r)

  -- The id is in the group of its root.
  abbrev pub IsGrouped : Groups → String → Type 0
  IsGrouped gs x = (ms : List String) × (group_of (rep x) gs ≡ some ms) × (includes ms x ≡ true)

  Fits-append :
      (r id : String) (ms : List String)
      → includes ids id ≡ true
      → rep id ≡ r
      → Fits (r, ms)
      → Fits (r, ms ++ id ∷ [])
  Fits-append r id ms inside e fits y m = elim (Bool-cases (includes ms y)) [
    | inl old ↦ fits y old
    | inr new ↦
        let one : id ≡ y = ground (arith, includes-append ms (id ∷ []) y, eq_iff id y) in
        (rw (← one) inside, rw (← one) e)
  ]

  add_to_group-Fits :
      (id : String) (gs : Groups)
      → includes ids id ≡ true
      → All Fits gs
      → All Fits (add_to_group (rep id) id gs)
  unfolding add_to_group
  add_to_group-Fits id [] inside fits = (Fits-append (rep id) id [] inside refl (λ y m. cc), tt)
  add_to_group-Fits id ((r, ms) ∷ gs) inside fits = elim (Bool-cases (r === rep id)) [
    | inl here ↦
        rw here (Fits-append r id ms inside (sym ((eq_iff r (rep id)).0 here)) (fits.0), fits.1)
    | inr later ↦ rw later (fits.0, add_to_group-Fits id gs inside (fits.1))
  ]

  add_to_group-IsGrouped : (id : String) (gs : Groups) → IsGrouped (add_to_group (rep id) id gs) id
  unfolding add_to_group
  add_to_group-IsGrouped id [] = (id ∷ [], rw (eq_refl (rep id)) refl, rw (eq_refl id) refl)
  add_to_group-IsGrouped id ((r, ms) ∷ gs) = elim (Bool-cases (r === rep id)) [
    | inl here ↦ (
      ms ++ id ∷ [],
      rw (here, here) refl,
      rw (includes-append ms (id ∷ []) id, eq_refl id) (ground arith),
    )
    | inr later ↦ let (ns, at, m) = add_to_group-IsGrouped id gs in (ns, rw (later, later) at, m)
  ]

  add_to_group-kept :
      (root id x : String) (gs : Groups) → IsGrouped gs x → IsGrouped (add_to_group root id gs) x
  unfolding add_to_group
  add_to_group-kept root id x [] (ms, at, m) = absurd (ground arith)
  add_to_group-kept root id x ((r, ns) ∷ gs) (ms, at, m) = elim (Bool-cases (r === root)) [
    | inl here ↦ elim (Bool-cases (r === rep x)) [
      | inl mine ↦
          let one : ns ≡ ms = ground arith in
          (ns ++ id ∷ [], rw (here, mine) refl, rw (includes-append ns (id ∷ []) x, one, m) refl)
      | inr other ↦ (ms, rw (here, other) (ground arith), m)
    ]
    | inr later ↦ elim (Bool-cases (r === rep x)) [
      | inl mine ↦ (ms, rw (later, mine) (ground arith), m)
      | inr other ↦
          let (ks, k_at, k_in) = add_to_group-kept root id x gs (ms, ground arith, m) in
          (ks, rw (later, other) k_at, k_in)
    ]
  ]

  -- What the grouping gives: every id that was asked for is in the group of its root.
  pub group_by_root-IsGrouped :
      (bound rounds : ℕ) (enough : bound < rounds) (todo : List String) (s : DisjointSet)
      (gs : Groups)
      → IsForest ids s rep bound
      → All (λ x. includes ids x ≡ true) todo
      → All Fits gs
      → (t : DisjointSet) × (hs : Groups) × (group_by_root rounds todo s gs ≡ ok (hs, t))
        × All Fits hs
        × All (IsGrouped hs) todo
        × ((x : String) → IsGrouped gs x → IsGrouped hs x)
  unfolding group_by_root
  group_by_root-IsGrouped bound rounds enough [] s gs f inside fits =
      (s, gs, refl, fits, tt, λ x g. g)
  group_by_root-IsGrouped bound rounds enough (id ∷ todo) s gs f inside fits =
      let (u, found, f') = find_root-IsForest ids rep bound rounds enough s id f (inside.0) in
      let (t, hs, got, fits', rest, kept) =
        group_by_root-IsGrouped bound rounds enough todo u (add_to_group (rep id) id gs) f'
          (inside.1) (add_to_group-Fits id gs (inside.0) fits) in
      (
        t,
        hs,
        rw found got,
        fits',
        (kept id (add_to_group-IsGrouped id gs), rest),
        λ x g. kept x (add_to_group-kept (rep id) id x gs g),
      )
