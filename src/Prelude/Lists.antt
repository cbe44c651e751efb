-- ===== src/Prelude/Lists.antt =====
-- Lists measured by native numbers, and the array methods of the source: `some`, `every`, `find`,
-- `includes`.
use Prim.Native.Nat.{ℕ, zero, suc, ◌+◌}
use Prim.Native.String.{String}
use mathlib.Core.Path.{◌≡◌, refl, sym}
use mathlib.Core.Logic.{inl, inr}
use mathlib.Core.Bool.{Bool, true, false, ◌&&◌, ◌||◌}
use mathlib.Core.List.{List, [], ◌∷◌, ◌++◌, Memᴰ}
use mathlib.Core.Option.{Option, none, some}
use native.Mathlib.Omega.{arith}
use text.Mathlib.TextEquality.{eq_iff}
use vocation_os.Prelude.Tests.{◌===◌, if◌then◌else◌, Bool-cases}

module _ {ℓ} {A : Type ℓ} where
  abbrev pub length : List A → ℕ
  length [] = 0
  length (x ∷ xs) = suc (length xs)

  abbrev pub take : ℕ → List A → List A
  take zero xs = []
  take (suc n) [] = []
  take (suc n) (x ∷ xs) = x ∷ take n xs

  abbrev pub drop : ℕ → List A → List A
  drop zero xs = xs
  drop (suc n) [] = []
  drop (suc n) (x ∷ xs) = drop n xs

  abbrev pub get_or : List A → ℕ → A → A
  get_or [] i d = d
  get_or (x ∷ xs) zero d = x
  get_or (x ∷ xs) (suc i) d = get_or xs i d

  abbrev pub is_some : Option A → Bool
  is_some none = false
  is_some (some x) = true

  -- `xs.some(p)`
  abbrev pub any : (A → Bool) → List A → Bool
  any p [] = false
  any p (x ∷ xs) = p x || any p xs

  -- `xs.every(p)`
  abbrev pub all : (A → Bool) → List A → Bool
  all p [] = true
  all p (x ∷ xs) = p x && all p xs

  -- `xs.find(p)`
  abbrev pub find : (A → Bool) → List A → Option A
  find p [] = none
  find p (x ∷ xs) = if p x then some x else find p xs

  -- `xs.filter(p)`
  abbrev pub keep : (A → Bool) → List A → List A
  keep p [] = []
  keep p (x ∷ xs) = let rest = keep p xs in if p x then x ∷ rest else rest

  pub length-append : (xs ys : List A) → length (xs ++ ys) ≡ length xs + length ys
  length-append [] ys = omega arith
  length-append (x ∷ xs) ys = omega (arith, length-append xs ys)

  pub append-eq-nil : (xs ys : List A) → xs ++ ys ≡ [] → (xs ≡ []) × (ys ≡ [])
  append-eq-nil [] ys h = (refl, h)
  append-eq-nil (x ∷ xs) ys h = cc

  pub find_holds : (p : A → Bool) (xs : List A) (a : A) → find p xs ≡ some a → p a ≡ true
  find_holds p [] a h = ground arith
  find_holds p (x ∷ xs) a h = ground (arith, find_holds p xs a)

  pub find-mem : (p : A → Bool) (xs : List A) (a : A) → find p xs ≡ some a → Memᴰ a xs
  find-mem p [] a h = cc
  find-mem p (x ∷ xs) a h = elim (Bool-cases (p x)) [
    | inl e ↦ Memᴰ.head (ground arith)
    | inr n ↦ Memᴰ.tail (find-mem p xs a (ground arith))
  ]

  pub any_of_find :
      (p q : A → Bool) (xs : List A) (a : A) → find p xs ≡ some a → q a ≡ true → any q xs ≡ true
  any_of_find p q [] a h k = ground arith
  any_of_find p q (x ∷ xs) a h k = ground (arith, any_of_find p q xs a)

-- `xs.includes(s)`
abbrev pub includes : List String → String → Bool
includes [] s = false
includes (x ∷ xs) s = x === s || includes xs s

-- What holds of every member of a list.
abbrev pub All {ℓ κ} : {A : Type ℓ} → (A → Type κ) → List A → Type κ
All P [] = Unit
All P (x ∷ xs) = P x × All P xs

pub includes→mem : (xs : List String) (s : String) → includes xs s ≡ true → Memᴰ s xs
includes→mem [] s h = cc
includes→mem (x ∷ xs) s h = elim (Bool-cases (x === s)) [
  | inl e ↦ Memᴰ.head (sym ((eq_iff x s).0 e))
  | inr n ↦ Memᴰ.tail (includes→mem xs s (ground arith))
]

pub mem→includes : {s : String} {xs : List String} → Memᴰ s xs → includes xs s ≡ true
mem→includes {s} (Memᴰ.head {x} e) = ground (arith, eq_iff x s)
mem→includes (Memᴰ.tail m) = ground (arith, mem→includes m)

module _ {ℓ κ} {A : Type ℓ} (P : A → Type κ) where
  pub All-append : (xs ys : List A) → All P xs → All P ys → All P (xs ++ ys)
  All-append [] ys hx hy = hy
  All-append (x ∷ xs) ys (h, hs) hy = (h, All-append xs ys hs hy)

  pub All-map : (Q : A → Type κ) → ((a : A) → P a → Q a) → (xs : List A) → All P xs → All Q xs
  All-map Q f [] h = tt
  All-map Q f (x ∷ xs) (h, hs) = (f x h, All-map Q f xs hs)

  pub All-keep :
      (Q : A → Type κ) (q : A → Bool) (xs : List A)
      → ((a : A) → q a ≡ true → P a → Q a)
      → All P xs
      → All Q (keep q xs)
  All-keep Q q [] f hs = tt
  All-keep Q q (x ∷ xs) f (h, hs) = elim (Bool-cases (q x)) [
    | inl e ↦ rw e (f x e h, All-keep Q q xs f hs)
    | inr n ↦ rw n (All-keep Q q xs f hs)
  ]

pub keep-append {ℓ} :
    {A : Type ℓ} (q : A → Bool) (xs ys : List A) → keep q (xs ++ ys) ≡ keep q xs ++ keep q ys
keep-append q [] ys = refl
keep-append q (x ∷ xs) ys = elim (Bool-cases (q x)) [
  | inl e ↦ rw (e, keep-append q xs ys) refl
  | inr e ↦ rw (e, keep-append q xs ys) refl
]
