-- ===== src/Runtime.antt =====
-- What src/ takes from the JavaScript runtime: `Date`, and the primitives of node:crypto.
-- An instant is a number of milliseconds since the earliest `Date` (8.64e15 ms before 1970), so
-- that every valid time value is a natural number; the code compares instants and adds durations
-- to them, and nothing else. NaN is `none`, and every comparison with it is false.
use vocation_os.Prelude.{ℕ, ◌+◌, ◌-◌, Bool, true, false, List, Option, none, some, String, ltb, leb}

-- `a < b`
abbrev pub before : Option ℕ → Option ℕ → Bool
before (some a) (some b) = ltb a b
before _ _ = false

-- `a <= b`
abbrev pub at_most : Option ℕ → Option ℕ → Bool
at_most (some a) (some b) = leb a b
at_most _ _ = false

-- `a + d` for a duration `d`
abbrev pub plus : Option ℕ → ℕ → Option ℕ
plus (some a) d = some (a + d)
plus none d = none

-- `a - b > d` for a duration `d`; a negative difference is not above `d`.
abbrev pub apart : Option ℕ → Option ℕ → ℕ → Bool
apart (some a) (some b) d = ltb d (a - b)
apart _ _ d = false

-- `Number.isFinite(a)`
abbrev pub is_finite : Option ℕ → Bool
is_finite (some a) = true
is_finite none = false

-- `validateAgainstSchema` of schema.ts runs a third-party validator over a JSON schema file.
pub record SchemaValidation : Type 0 where
  pub valid : Bool
  pub errors : List String

-- The platform: parsing and printing of dates, the digest and the signature check.
pub record Platform : Type 0 where
  -- `Date.parse`, `none` for NaN.
  pub parse_date : String → Option ℕ
  -- `new Date(t).toISOString()`
  pub to_iso_string : ℕ → String
  -- `String(new Date(t).getUTCFullYear())`
  pub utc_full_year : ℕ → String
  -- `createHash("sha256").update(s).digest("hex")`
  pub digest_hex : String → String
  -- `left.localeCompare(right) <= 0`
  pub locale_le : String → String → Bool
  -- `verify(null, payload, createPublicKey(pem), signature)`, `none` where it throws.
  pub verify : String → String → String → Option Bool
