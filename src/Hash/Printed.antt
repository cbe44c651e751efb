-- ===== src/Hash/Printed.antt =====
-- What `stableStringify` of hash.ts prints: the JSON text of the value with its fields sorted.
use vocation_os.Prelude.{
  ◌≡◌, refl, ap, ap₂, ◌∙◌, map, if◌then◌else◌, Bool, List, [], ◌∷◌, String, Bool-cases, inl, inr,
}
use vocation_os.Hash.{
  Json, undefined, null, bool, num, str, arr, obj, quote, Items, nil, cons, Fields, end, field,
  Entry, entry_text, insert_entry, sort_entries, join, object_text, ◌+++◌, is_defined,
  stable_stringify, item_texts, entries,
}

-- The JSON text of a value, its fields in the order in which they stand: an object is its fields in
-- braces, each with its name as a string literal, a colon and its value's text.
mutual
  pub json_text : Json → String
  json_text undefined = ""
  json_text null = "null"
  json_text (bool b) = if b then "true" else "false"
  json_text (num n) = n
  json_text (str s) = quote s
  json_text (arr xs) = "[" +++ join (json_items xs) +++ "]"
  json_text (obj fs) = "{" +++ join (json_fields fs) +++ "}"

  json_items : Items → List String
  json_items nil = []
  json_items (cons x xs) = json_text x ∷ json_items xs

  json_fields : Fields → List String
  json_fields end = []
  json_fields (field k v fs) = (quote k +++ ":" +++ json_text v) ∷ json_fields fs

-- The value with its fields sorted.
module _ (le : String → String → Bool) where
  insert_field : (k : String) → Json → Fields → Fields
  insert_field k v end = field k v end
  insert_field k v (field j w fs) =
      let deeper = insert_field k v fs in
      if le k j then field k v (field j w fs) else field j w deeper

  mutual
    unfolding insert_field

    pub canonical : Json → Json
    canonical (arr xs) = arr (canonical_items xs)
    canonical (obj fs) = obj (canonical_fields fs)
    canonical undefined = undefined
    canonical null = null
    canonical (bool b) = bool b
    canonical (num n) = num n
    canonical (str s) = str s

    canonical_items : Items → Items
    canonical_items nil = nil
    canonical_items (cons x xs) = cons (canonical x) (canonical_items xs)

    canonical_fields : Fields → Fields
    canonical_fields end = end
    canonical_fields (field k v fs) =
        let rest = canonical_fields fs in
        if is_defined v then insert_field k (canonical v) rest else rest

  -- The fields with the texts of their values.
  texts_of : Fields → List Entry
  unfolding json_text
  texts_of end = []
  texts_of (field k v fs) = (k, json_text v) ∷ texts_of fs

  texts_of-insert_field :
      (k : String) (v : Json) (fs : Fields)
      → insert_entry le (k, json_text v) (texts_of fs) ≡ texts_of (insert_field k v fs)
  unfolding texts_of insert_field insert_entry
  texts_of-insert_field k v end = refl
  texts_of-insert_field k v (field j w fs) =
      let deeper = texts_of-insert_field k v fs in
      elim (Bool-cases (le k j)) [
        | inl e ↦ simp e
        | inr n ↦ simp n (ap (λ es. (j, json_text w) ∷ es) deeper)
      ]

  json_fields-texts_of : (fs : Fields) → map entry_text (texts_of fs) ≡ json_fields fs
  unfolding texts_of json_fields entry_text
  json_fields-texts_of end = refl
  json_fields-texts_of (field k v fs) =
      ap (λ ts. (quote k +++ ":" +++ json_text v) ∷ ts) (json_fields-texts_of fs)

  object_text-texts_of : (fs : Fields) → object_text (texts_of fs) ≡ json_text (obj fs)
  unfolding object_text json_text
  object_text-texts_of fs = ap (λ ts. "{" +++ join ts +++ "}") (json_fields-texts_of fs)

  mutual
    unfolding stable_stringify json_text canonical texts_of sort_entries

    pub stable_stringify-text : (v : Json) → stable_stringify le v ≡ json_text (canonical v)
    stable_stringify-text undefined = refl
    stable_stringify-text null = refl
    stable_stringify-text (bool b) = refl
    stable_stringify-text (num n) = refl
    stable_stringify-text (str s) = refl
    stable_stringify-text (arr xs) = ap (λ ts. "[" +++ join ts +++ "]") (item_texts-json_items xs)
    stable_stringify-text (obj fs) =
        ap object_text (sort_entries-texts_of fs) ∙ object_text-texts_of (canonical_fields fs)

    item_texts-json_items : (xs : Items) → item_texts le xs ≡ json_items (canonical_items xs)
    item_texts-json_items nil = refl
    item_texts-json_items (cons x xs) = ap₂ ◌∷◌ (stable_stringify-text x) (item_texts-json_items xs)

    sort_entries-texts_of :
        (fs : Fields) → sort_entries le (entries le fs) ≡ texts_of (canonical_fields fs)
    sort_entries-texts_of end = refl
    sort_entries-texts_of (field k v fs) =
        let text = stable_stringify-text v in
        let rest = sort_entries-texts_of fs in
        elim (Bool-cases (is_defined v)) [
          | inl d ↦
              rw d (rw (text, rest) (texts_of-insert_field k (canonical v) (canonical_fields fs)))
          | inr u ↦ rw u rest
        ]
