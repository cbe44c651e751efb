-- ===== src/Text.antt =====
-- The methods of JavaScript's strings and regular expressions that the modelled code calls, over
-- code points.
use Prim.Native.Char.{Char, code}
use Prim.Native.String
use vocation_os.Prelude.{
  ℕ, zero, suc, ◌+◌, ◌/◌, ◌%◌, ◌≡◌, refl, Bool, true, false, ◌&&◌, ◌||◌, List, [], ◌∷◌, Option,
  none, some, String, ltb, leb, ◌==◌, ◌===◌, not, if◌then◌else◌, get_or,
}

-- What `trim` and `\s` take for white space.
is_space : ℕ → Bool
is_space c =
    leb 9 c && leb c 13
    || c == 32
    || c == 0xa0
    || c == 0x1680
    || leb 0x2000 c && leb c 0x200a
    || c == 0x2028
    || c == 0x2029
    || c == 0x202f
    || c == 0x205f
    || c == 0x3000
    || c == 0xfeff

trim_start : String → String
unfolding is_space
trim_start String.[] = ""
trim_start (String.◌∷◌ c s) =
    let rest = trim_start s in if is_space (code c) then rest else String.◌∷◌ c s

-- A character in front of the trimmed rest; a blank one goes if nothing is left behind it.
keep_unless_blank : Char → String → String
unfolding is_space
keep_unless_blank c String.[] = if is_space (code c) then "" else String.◌∷◌ c String.[]
keep_unless_blank c s = String.◌∷◌ c s

trim_end : String → String
unfolding keep_unless_blank
trim_end String.[] = ""
trim_end (String.◌∷◌ c s) = keep_unless_blank c (trim_end s)

-- `s.trim()`
unfoldable pub trim : String → String
unfolding trim_start trim_end
trim s = trim_end (trim_start s)

-- The characters with every run of white space made one blank; `blank` says that the last one written
-- is such a blank.
collapse : Bool → String → String
unfolding is_space
collapse blank String.[] = ""
collapse blank (String.◌∷◌ c s) =
    let skipped = collapse true s in
    let kept = collapse false s in
    if is_space (code c)
    then (if blank then skipped else String.◌++◌ " " skipped)
    else String.◌∷◌ c kept

-- `s.trim().replace(/\s+/g, " ")`
unfoldable pub normalize_space : String → String
unfolding collapse trim
normalize_space s = collapse false (trim s)

-- `s.split(":")[0]`
pub before_colon : String → String
before_colon String.[] = ""
before_colon (String.◌∷◌ c s) =
    let rest = before_colon s in if code c == 58 then "" else String.◌∷◌ c rest

-- `s.slice(0, n)`, for the ASCII texts that are sliced.
unfoldable pub slice_start : ℕ → String → String
slice_start zero s = ""
slice_start (suc n) String.[] = ""
slice_start (suc n) (String.◌∷◌ c s) = String.◌∷◌ c (slice_start n s)

-- `s.length`: a code point from 0x10000 on is two units.
unfoldable pub utf16_length : String → ℕ
utf16_length String.[] = 0
utf16_length (String.◌∷◌ c s) =
    let rest = utf16_length s in if leb 0x10000 (code c) then rest + 2 else rest + 1

-- `s.slice(n)`
unfoldable pub slice_from : ℕ → String → String
slice_from zero s = s
slice_from (suc n) String.[] = ""
slice_from (suc n) (String.◌∷◌ c s) = slice_from n s

-- `if (s)`: an empty string is false.
abbrev pub is_truthy : String → Bool
is_truthy s = not (s === "")

-- `if (s)` for a string that may be null.
abbrev pub is_present : Option String → Bool
is_present none = false
is_present (some s) = is_truthy s

abbrev pub codes : String → List ℕ
codes String.[] = []
codes (String.◌∷◌ c s) = code c ∷ codes s

-- `[A-Za-z0-9]`
abbrev pub is_alphanumeric : ℕ → Bool
is_alphanumeric c = leb 65 c && leb c 90 || leb 97 c && leb c 122 || leb 48 c && leb c 57

-- The letters that a pattern with the flag `i` takes for one another: those of ASCII.
to_lower_ascii : ℕ → ℕ
to_lower_ascii c = if leb 65 c && leb c 90 then c + 32 else c

starts : List ℕ → List ℕ → Bool
unfolding to_lower_ascii
starts [] text = true
starts (n ∷ needle) [] = false
starts (n ∷ needle) (c ∷ text) =
    let rest = starts needle text in if to_lower_ascii c == n then rest else false

contains_codes : List ℕ → List ℕ → Bool
unfolding starts
contains_codes needle [] = starts needle []
contains_codes needle (c ∷ text) = starts needle (c ∷ text) || contains_codes needle text

-- `/needle/i.test(text)` for a needle of lower-case letters and spaces.
unfoldable pub matches : String → String → Bool
unfolding contains_codes
matches text needle = contains_codes (codes needle) (codes text)

digit_texts : List String
digit_texts = "0" ∷ "1" ∷ "2" ∷ "3" ∷ "4" ∷ "5" ∷ "6" ∷ "7" ∷ "8" ∷ "9" ∷ []

digits_of : ℕ → ℕ → String
unfolding digit_texts
digits_of zero n = ""
digits_of (suc fuel) n =
    let rest = digits_of fuel (n / 10) in
    let last = get_or digit_texts (n % 10) "" in if ltb n 10 then last else String.◌++◌ rest last

-- `JSON.stringify` of a natural number; n + 1 digits are enough for n.
unfoldable pub decimal : ℕ → String
unfolding digits_of
decimal n = digits_of (suc n) n

trimmed_text : trim " \t blocked by site \n" ≡ "blocked by site"
unfolding trim
trimmed_text = refl

printed : decimal 1048576 ≡ "1048576"
unfolding decimal
printed = refl

matched : matches "Your APPLICATION has been Received." "application has been received" ≡ true
unfolding matches
matched = refl

normalized : normalize_space "  led \t a   team " ≡ "led a team"
unfolding normalize_space
normalized = refl

first_part : before_colon "missing-claim:C-1" ≡ "missing-claim"
unfolding before_colon
first_part = refl
