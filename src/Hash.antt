-- ===== src/Hash.antt =====
-- hash.ts: canonical JSON text and the digests taken of it.
pub mod Printed
pub mod Canonical
use Prim.Native.Char.{Char, code}
use Prim.Native.String
use vocation_os.Prelude.{
  ℕ, ◌/◌, ◌%◌, Bool, true, false, List, [], ◌∷◌, map, String, ltb, ◌==◌, if◌then◌else◌, get_or,
}
use vocation_os.Runtime.{Platform}

-- The values that the code hashes. A number is carried as the text that it is printed by.
mutual
  pub data Json : Type 0 where
    undefined : Json
    null : Json
    bool : Bool → Json
    num : String → Json
    str : String → Json
    arr : Items → Json
    obj : Fields → Json

  pub data Items : Type 0 where
    nil : Items
    cons : Json → Items → Items

  pub data Fields : Type 0 where
    end : Fields
    field : String → Json → Fields → Fields

infixr 65 ◌+++◌
abbrev pub ◌+++◌ : String → String → String
s +++ t = String.◌++◌ s t

hex_digits : List String
hex_digits =
    "0" ∷ "1" ∷ "2" ∷ "3" ∷ "4" ∷ "5" ∷ "6" ∷ "7" ∷ "8" ∷ "9" ∷ "a" ∷ "b" ∷ "c" ∷ "d" ∷ "e" ∷ "f"
    ∷ []

hex_digit : ℕ → String
unfolding hex_digits
hex_digit n = get_or hex_digits n "0"

-- One character inside a JSON string literal.
escape : Char → String
unfolding hex_digit
escape c =
    let n = code c in
    if n == 34
    then "\\\""
    else if n == 92
    then "\\\\"
    else if n == 8
    then "\\b"
    else if n == 12
    then "\\f"
    else if n == 10
    then "\\n"
    else if n == 13
    then "\\r"
    else if n == 9
    then "\\t"
    else if ltb n 32
    then "\\u00" +++ hex_digit (n / 16) +++ hex_digit (n % 16)
    else String.◌∷◌ c String.[]

escape_all : String → String
unfolding escape
escape_all String.[] = ""
escape_all (String.◌∷◌ c s) = escape c +++ escape_all s

-- `JSON.stringify` of a string.
unfoldable pub quote : String → String
unfolding escape_all
quote s = "\"" +++ escape_all s +++ "\""

-- `xs.join(",")`
pub join : List String → String
join [] = ""
join (x ∷ []) = x
join (x ∷ y ∷ xs) = x +++ "," +++ join (y ∷ xs)

-- A field's name, and the text of its value.
abbrev pub Entry : Type 0
Entry = String × String

-- A stable sort by the order of the names, `left.localeCompare(right) <= 0`.
module _ (le : String → String → Bool) where
  pub insert_entry : Entry → List Entry → List Entry
  insert_entry e [] = e ∷ []
  insert_entry e (f ∷ fs) =
      let deeper = insert_entry e fs in if le e.0 f.0 then e ∷ f ∷ fs else f ∷ deeper

  pub sort_entries : List Entry → List Entry
  unfolding insert_entry
  sort_entries [] = []
  sort_entries (e ∷ es) = insert_entry e (sort_entries es)

unfoldable pub entry_text : Entry → String
unfolding quote
entry_text e = quote e.0 +++ ":" +++ e.1

unfoldable pub object_text : List Entry → String
unfolding join entry_text
object_text es = "{" +++ join (map entry_text es) +++ "}"

-- `value !== undefined`
abbrev pub is_defined : Json → Bool
is_defined undefined = false
is_defined _ = true

-- `stableStringify`. The source sorts the fields and prints them after; each field's text depends
-- on that field alone, so here they are printed and then sorted.
unfoldable mutual
  unfolding quote join sort_entries object_text

  pub stable_stringify : (String → String → Bool) → Json → String
  stable_stringify le undefined = ""
  stable_stringify le null = "null"
  stable_stringify le (bool b) = if b then "true" else "false"
  stable_stringify le (num n) = n
  stable_stringify le (str s) = quote s
  stable_stringify le (arr xs) = "[" +++ join (item_texts le xs) +++ "]"
  stable_stringify le (obj fs) = object_text (sort_entries le (entries le fs))

  pub item_texts : (String → String → Bool) → Items → List String
  item_texts le nil = []
  item_texts le (cons x xs) = stable_stringify le x ∷ item_texts le xs

  -- `Object.entries`, without the fields that are undefined.
  pub entries : (String → String → Bool) → Fields → List Entry
  entries le end = []
  entries le (field k v fs) =
      let rest = entries le fs in if is_defined v then (k, stable_stringify le v) ∷ rest else rest

module _ (p : Platform) where
  -- `sha256`
  unfoldable pub sha256 : String → String
  sha256 s = "sha256:" +++ p.digest_hex s

  unfoldable pub stringify : Json → String
  stringify j = stable_stringify p.locale_le j
