-- ===== src/Prelude/Results.antt =====
-- Code that throws: a result is a value, or the error that was thrown.
use mathlib.Core.Path.{◌≡◌, refl}
use mathlib.Core.Logic.{◌⊎◌, inl, inr}
use mathlib.Core.Bool.{Bool, true, false}
use mathlib.Core.Option.{Option, none, some}

pub data Result {ℓ κ} (E : Type ℓ) (A : Type κ) : Type (ℓ ⊔ κ) where
  ok : A → Result E A
  err : E → Result E A

-- `if (!b) throw why`
abbrev pub guard {ℓ} : {E : Type ℓ} → Bool → E → Result E (Unit {0})
guard false why = err why
guard true why = ok tt

-- `if (b) throw why`
abbrev pub throw_if {ℓ} : {E : Type ℓ} → Bool → E → Result E (Unit {0})
throw_if false why = ok tt
throw_if true why = err why

-- The value of an option, and `throw why` where there is none.
abbrev pub or_throw {ℓ κ} : {E : Type ℓ} {A : Type κ} → Option A → E → Result E A
or_throw none why = err why
or_throw (some value) why = ok value

-- What is thrown passes by what comes after.
infixl 5 ◌>>=◌ ◌>>◌
abbrev pub ◌>>=◌ {ℓ κ μ} :
    {E : Type ℓ} {A : Type κ} {B : Type μ} → Result E A → (A → Result E B) → Result E B
err why >>= after = err why
ok value >>= after = after value

abbrev pub ◌>>◌ {ℓ μ} : {E : Type ℓ} {B : Type μ} → Result E (Unit {0}) → Result E B → Result E B
first >> second = first >>= λ _. second

-- To split on a result and keep the equation.
pub Result-cases {ℓ κ} :
    {E : Type ℓ} {A : Type κ} (m : Result E A) → ((a : A) × (m ≡ ok a)) ⊎ ((e : E) × (m ≡ err e))
Result-cases (ok a) = inl (a, refl)
Result-cases (err e) = inr (e, refl)

-- A chain that gives a value gave one at its first link, and from there.
pub >>=-ok_parts {ℓ κ μ} :
    {E : Type ℓ} {A : Type κ} {B : Type μ} (first : Result E A) (after : A → Result E B) {out : B}
    → first >>= after ≡ ok out
    → (value : A) × ((first ≡ ok value) × (after value ≡ ok out))
>>=-ok_parts (err why) after thrown = cc
>>=-ok_parts (ok value) after given = (value, (refl, given))

-- A chain that gives a value passed its first check, and its rest gave the value.
pub guard-passed {ℓ κ} :
    {E : Type ℓ} {A : Type κ} (b : Bool) (why : E) (after : Result E A) {out : A}
    → guard b why >> after ≡ ok out
    → (b ≡ true) × (after ≡ ok out)
guard-passed true why after given = (refl, given)
guard-passed false why after given = cc

pub or_throw-given {ℓ κ} :
    {E : Type ℓ} {A : Type κ} (o : Option A) (why : E) {out : A}
    → or_throw o why ≡ ok out
    → o ≡ some out
or_throw-given none why given = cc
or_throw-given (some a) why given = cc

pub ok_injective {ℓ κ} :
    {E : Type ℓ} {A : Type κ} {a b : A} → ◌≡◌ {A = Result E A} (ok a) (ok b) → a ≡ b
ok_injective same = cc
