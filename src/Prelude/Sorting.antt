-- ===== src/Prelude/Sorting.antt =====
-- Sets of a list's elements and stable sorts, as the source writes them with `Set` and `sort`.
use mathlib.Core.Path.{◌≡◌, refl}
use mathlib.Core.Logic.{inl, inr}
use mathlib.Core.Bool.{Bool, true, false, not, ◌||◌}
use mathlib.Core.List.{List, [], ◌∷◌, Memᴰ}
use Prim.Native.String.{String}
use native.Mathlib.Omega.{arith}
use vocation_os.Prelude.Tests.{◌===◌, if◌then◌else◌, Bool-cases}
use vocation_os.Prelude.Lists.{All, keep, includes}

abbrev pub is_empty : {A : Type 0} → List A → Bool
is_empty [] = true
is_empty (x ∷ xs) = false

-- `[...new Set(xs)]`, with what makes two elements the same.
unfoldable pub unique : {A : Type 0} → (A → A → Bool) → List A → List A
unique same [] = []
unique same (x ∷ xs) = x ∷ keep (λ y. not (same y x)) (unique same xs)

-- A stable sort; `le x y` is `compare(x, y) <= 0`.
unfoldable pub insert_by : {A : Type 0} → (A → A → Bool) → A → List A → List A
insert_by le x [] = x ∷ []
insert_by le x (y ∷ ys) =
    let deeper = insert_by le x ys in if le x y then x ∷ y ∷ ys else y ∷ deeper

unfoldable pub sort_by : {A : Type 0} → (A → A → Bool) → List A → List A
sort_by le [] = []
sort_by le (x ∷ xs) = insert_by le x (sort_by le xs)

module _ {A : Type 0} (P : A → Type 0) where
  All-insert_by :
      (le : A → A → Bool) (x : A) (xs : List A) → P x → All P xs → All P (insert_by le x xs)
  unfolding insert_by
  All-insert_by le x [] h hs = (h, tt)
  All-insert_by le x (y ∷ ys) h (k, ks) = elim (Bool-cases (le x y)) [
    | inl e ↦ rw e (h, (k, ks))
    | inr n ↦ rw n (k, All-insert_by le x ys h ks)
  ]

  pub All-sort_by : (le : A → A → Bool) (xs : List A) → All P xs → All P (sort_by le xs)
  unfolding sort_by
  All-sort_by le [] hs = tt
  All-sort_by le (x ∷ xs) (h, hs) = All-insert_by le x (sort_by le xs) h (All-sort_by le xs hs)

insert_by-nil : {A : Type 0} (le : A → A → Bool) (x : A) (ys : List A) → ¬ (insert_by le x ys ≡ [])
unfolding insert_by
insert_by-nil le x [] h = ground arith
insert_by-nil le x (y ∷ ys) h = ground arith

pub sort_by-nil : {A : Type 0} (le : A → A → Bool) (xs : List A) → sort_by le xs ≡ [] → xs ≡ []
unfolding sort_by
sort_by-nil le [] h = refl
sort_by-nil le (x ∷ xs) h = absurd (insert_by-nil le x (sort_by le xs) h)

module _ {A : Type 0} (le : A → A → Bool) where
  insert_by-mem : (x a : A) (xs : List A) → Memᴰ a (insert_by le x xs) → Memᴰ a (x ∷ xs)
  unfolding insert_by
  insert_by-mem x a [] m = m
  insert_by-mem x a (y ∷ ys) m = elim (Bool-cases (le x y)) [
    | inl first ↦ rw first at m
    | inr later ↦ later_mem x a y ys (insert_by-mem x a ys) (rw later at m)
  ]
    where
      later_mem :
          (x a y : A) (ys : List A)
          → (Memᴰ a (insert_by le x ys) → Memᴰ a (x ∷ ys))
          → Memᴰ a (y ∷ insert_by le x ys)
          → Memᴰ a (x ∷ y ∷ ys)
      later_mem x a y ys ih (Memᴰ.head e) = Memᴰ.tail (Memᴰ.head e)
      later_mem x a y ys ih (Memᴰ.tail n) = elim (ih n) [
        | Memᴰ.head e ↦ Memᴰ.head e
        | Memᴰ.tail k ↦ Memᴰ.tail (Memᴰ.tail k)
      ]

  mem-insert_by : (x a : A) (xs : List A) → Memᴰ a (x ∷ xs) → Memᴰ a (insert_by le x xs)
  unfolding insert_by
  mem-insert_by x a [] m = m
  mem-insert_by x a (y ∷ ys) (Memᴰ.head e) = elim (Bool-cases (le x y)) [
    | inl first ↦ rw first (Memᴰ.head e)
    | inr later ↦ rw later (Memᴰ.tail (mem-insert_by x a ys (Memᴰ.head e)))
  ]
  mem-insert_by x a (y ∷ ys) (Memᴰ.tail (Memᴰ.head e)) = elim (Bool-cases (le x y)) [
    | inl first ↦ rw first (Memᴰ.tail (Memᴰ.head e))
    | inr later ↦ rw later (Memᴰ.head e)
  ]
  mem-insert_by x a (y ∷ ys) (Memᴰ.tail (Memᴰ.tail m)) = elim (Bool-cases (le x y)) [
    | inl first ↦ rw first (Memᴰ.tail (Memᴰ.tail m))
    | inr later ↦ rw later (Memᴰ.tail (mem-insert_by x a ys (Memᴰ.tail m)))
  ]

  pub sort_by-mem : (a : A) (xs : List A) → Memᴰ a (sort_by le xs) → Memᴰ a xs
  unfolding sort_by
  sort_by-mem a [] m = m
  sort_by-mem a (x ∷ xs) m = elim (insert_by-mem x a (sort_by le xs) m) [
    | Memᴰ.head e ↦ Memᴰ.head e
    | Memᴰ.tail n ↦ Memᴰ.tail (sort_by-mem a xs n)
  ]

  pub mem-sort_by : (a : A) (xs : List A) → Memᴰ a xs → Memᴰ a (sort_by le xs)
  unfolding sort_by
  mem-sort_by a (x ∷ xs) (Memᴰ.head e) = mem-insert_by x a (sort_by le xs) (Memᴰ.head e)
  mem-sort_by a (x ∷ xs) (Memᴰ.tail m) =
      mem-insert_by x a (sort_by le xs) (Memᴰ.tail (mem-sort_by a xs m))
  mem-sort_by a [] m = m

includes-insert_by :
    (le : String → String → Bool) (x : String) (xs : List String) (y : String)
    → includes (insert_by le x xs) y ≡ (x === y || includes xs y)
unfolding insert_by
includes-insert_by le x [] y = refl
includes-insert_by le x (z ∷ zs) y = ground (arith, includes-insert_by le x zs y)

pub includes-sort_by :
    (le : String → String → Bool) (xs : List String) (y : String)
    → includes (sort_by le xs) y ≡ includes xs y
unfolding sort_by
includes-sort_by le [] y = refl
includes-sort_by le (x ∷ xs) y =
    rw (includes-insert_by le x (sort_by le xs) y, includes-sort_by le xs y) refl

pub is_empty-nil : {A : Type 0} (xs : List A) → is_empty xs ≡ true → xs ≡ []
is_empty-nil [] h = refl
is_empty-nil (x ∷ xs) h = cc

pub unique-nil : {A : Type 0} (same : A → A → Bool) (xs : List A) → unique same xs ≡ [] → xs ≡ []
unfolding unique
unique-nil same [] h = refl
unique-nil same (x ∷ xs) h = cc
