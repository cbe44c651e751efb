-- ===== src/Patterns.antt =====
-- The regular expressions and the string tests of the discovery code, over code points.
use vocation_os.Prelude.{
  ℕ, Bool, true, false, ◌&&◌, ◌||◌, List, [], ◌∷◌, String, leb, ◌==◌, if◌then◌else◌, length, all,
  drop,
}
use vocation_os.Text.{codes, is_alphanumeric}

starts_with : List ℕ → List ℕ → Bool
starts_with [] text = true
starts_with (n ∷ prefix) [] = false
starts_with (n ∷ prefix) (c ∷ text) =
    let rest = starts_with prefix text in if c == n then rest else false

-- `s.startsWith(prefix)`
unfoldable pub begins : (prefix s : String) → Bool
unfolding starts_with
begins prefix s = starts_with (codes prefix) (codes s)

includes_codes : List ℕ → List ℕ → Bool
unfolding starts_with
includes_codes needle [] = starts_with needle []
includes_codes needle (c ∷ text) = starts_with needle (c ∷ text) || includes_codes needle text

-- `s.includes(needle)`
unfoldable pub contains : (needle s : String) → Bool
unfolding includes_codes
contains needle s = includes_codes (codes needle) (codes s)

-- `s.split(c)`, over code points.
push_code : ℕ → List (List ℕ) → List (List ℕ)
push_code c [] = (c ∷ []) ∷ []
push_code c (w ∷ ws) = (c ∷ w) ∷ ws

unfoldable pub split_codes : ℕ → List ℕ → List (List ℕ)
unfolding push_code
split_codes at [] = [] ∷ []
split_codes at (c ∷ cs) =
    let rest = split_codes at cs in if c == at then [] ∷ rest else push_code c rest

abbrev last_code : ℕ → List ℕ → ℕ
last_code d [] = d
last_code d (c ∷ cs) = last_code c cs

-- `[A-Za-z0-9._:-]`
abbrev pub is_id_code : ℕ → Bool
is_id_code c = is_alphanumeric c || c == 46 || c == 95 || c == 58 || c == 45

-- `/^[A-Za-z0-9][A-Za-z0-9._:-]{1,127}$/`
abbrev pub is_id_codes : List ℕ → Bool
is_id_codes [] = false
is_id_codes (c ∷ cs) =
    is_alphanumeric c && all is_id_code cs && leb 1 (length cs) && leb (length cs) 127

-- `[A-F0-9]` and `[a-f0-9]`
abbrev is_upper_hex : ℕ → Bool
is_upper_hex c = leb 65 c && leb c 70 || leb 48 c && leb c 57

abbrev is_lower_hex : ℕ → Bool
is_lower_hex c = leb 97 c && leb c 102 || leb 48 c && leb c 57

-- `/^OBS-[A-F0-9]{32}$/`
unfoldable pub is_observation_id : String → Bool
unfolding begins
is_observation_id s =
    begins "OBS-" s && all is_upper_hex (drop 4 (codes s)) && length (codes s) == 36

-- `SHA256_PATTERN`
unfoldable pub is_digest : String → Bool
unfolding begins
is_digest s = begins "sha256:" s && all is_lower_hex (drop 7 (codes s)) && length (codes s) == 71

-- `[a-z0-9]`
abbrev is_label_end : ℕ → Bool
is_label_end c = leb 97 c && leb c 122 || leb 48 c && leb c 57

-- `[a-z0-9](?:[a-z0-9-]{0,61}[a-z0-9])?`
abbrev is_label : List ℕ → Bool
is_label [] = false
is_label (c ∷ cs) =
    is_label_end c
    && all (λ x. is_label_end x || x == 45) cs
    && is_label_end (last_code c cs)
    && leb (length cs) 62

-- The pattern of `canonicalCompanyDomain`.
unfoldable pub is_domain : String → Bool
unfolding split_codes
is_domain s = let labels = split_codes 46 (codes s) in all is_label labels && leb 2 (length labels)

-- `s.endsWith(".")`
unfoldable pub ends_with_dot : String → Bool
ends_with_dot s = last_code 0 (codes s) == 46
