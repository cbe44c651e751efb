-- ===== src/Hash/Canonical.antt =====
-- Two JSON values that differ in the order of their fields have one canonical text, and so one
-- digest (hash.ts, stableStringify).
use vocation_os.Prelude.{
  ◌≡◌, refl, ap, ap₂, ◌∙◌, ◌≢◌, Bool, true, false, List, [], ◌∷◌, String, arith, Bool-cases, inl,
  inr,
}
use vocation_os.Hash.{
  Json, arr, obj, Items, nil, cons, Fields, end, field, Entry, insert_entry, sort_entries, join,
  object_text, ◌+++◌, is_defined, stable_stringify, item_texts, entries,
}

-- What `localeCompare` gives on names that it tells apart: a total order.
pub record IsNameOrder (le : String → String → Bool) : Type 0 where
  pub total : (a b : String) → le a b ≡ false → le b a ≡ true
  pub trans : (a b c : String) → le a b ≡ true → le b c ≡ true → le a c ≡ true
  pub antisym : (a b : String) → le a b ≡ true → le b a ≡ true → a ≡ b

-- One value written in two ways: at every depth the fields of an object may stand in another order.
mutual
  pub data Same : Json → Json → Type 0 where
    same : {j : Json} → Same j j
    same_arr : {xs ys : Items} → SameItems xs ys → Same (arr xs) (arr ys)
    same_obj : {fs gs : Fields} → SameFields fs gs → Same (obj fs) (obj gs)

  pub data SameItems : Items → Items → Type 0 where
    same_nil : SameItems nil nil
    same_cons :
        {x y : Json} {xs ys : Items}
        → Same x y
        → SameItems xs ys
        → SameItems (cons x xs) (cons y ys)

  pub data SameFields : Fields → Fields → Type 0 where
    same_end : SameFields end end
    same_field :
        {k : String} {v w : Json} {fs gs : Fields}
        → Same v w
        → SameFields fs gs
        → SameFields (field k v fs) (field k w gs)
    swapped :
        {k j : String} {v w : Json} {fs : Fields}
        → k ≢ j
        → SameFields (field k v (field j w fs)) (field j w (field k v fs))
    chained : {fs gs hs : Fields} → SameFields fs gs → SameFields gs hs → SameFields fs hs

module _ (le : String → String → Bool) (order : IsNameOrder le) where
  -- Where the two entries go does not depend on which one is put in first.
  insert_swap :
      (a b : Entry) (es : List Entry)
      → a.0 ≢ b.0
      → insert_entry le a (insert_entry le b es) ≡ insert_entry le b (insert_entry le a es)
  unfolding insert_entry
  insert_swap a b [] ne =
      ground (arith, order.total a.0 b.0, order.total b.0 a.0, order.antisym a.0 b.0)
  insert_swap a b (e ∷ es) ne = ground (
    arith,
    order.total a.0 b.0,
    order.total b.0 a.0,
    order.antisym a.0 b.0,
    order.trans a.0 b.0 e.0,
    order.trans b.0 a.0 e.0,
    insert_swap a b es ne,
  )

  field_swap :
      (k j : String) (v w : Json) (fs : Fields)
      → k ≢ j
      → sort_entries le (entries le (field k v (field j w fs)))
        ≡ sort_entries le (entries le (field j w (field k v fs)))
  unfolding sort_entries entries
  field_swap k j v w fs ne =
      let swap =
        insert_swap (k, stable_stringify le v) (j, stable_stringify le w)
          (sort_entries le (entries le fs)) ne in
      elim (Bool-cases (is_defined v)) [
        | inl dv ↦ elim (Bool-cases (is_defined w)) [
          | inl dw ↦ simp (dv, dw) swap
          | inr uw ↦ simp (dv, uw)
        ]
        | inr uv ↦ elim (Bool-cases (is_defined w)) [
          | inl dw ↦ simp (uv, dw)
          | inr uw ↦ simp (uv, uw)
        ]
      ]

  field_cong :
      (k : String) (v w : Json) (fs gs : Fields)
      → is_defined v ≡ is_defined w
      → stable_stringify le v ≡ stable_stringify le w
      → sort_entries le (entries le fs) ≡ sort_entries le (entries le gs)
      → sort_entries le (entries le (field k v fs)) ≡ sort_entries le (entries le (field k w gs))
  unfolding sort_entries entries
  field_cong k v w fs gs d t e = elim (Bool-cases (is_defined v)) [
    | inl dv ↦ rw (← d, dv) (rw (t, e))
    | inr uv ↦ rw (← d, uv) e
  ]

  is_defined-Same : {v w : Json} → Same v w → is_defined v ≡ is_defined w
  is_defined-Same same = refl
  is_defined-Same (same_arr _) = refl
  is_defined-Same (same_obj _) = refl

  mutual
    unfolding stable_stringify

    text-Same : {v w : Json} → Same v w → stable_stringify le v ≡ stable_stringify le w
    text-Same same = refl
    text-Same (same_arr s) = ap (λ ts. "[" +++ join ts +++ "]") (texts-SameItems s)
    text-Same (same_obj s) = ap object_text (sorted-SameFields s)

    texts-SameItems : {xs ys : Items} → SameItems xs ys → item_texts le xs ≡ item_texts le ys
    texts-SameItems same_nil = refl
    texts-SameItems (same_cons s r) = ap₂ ◌∷◌ (text-Same s) (texts-SameItems r)

    sorted-SameFields :
        {fs gs : Fields}
        → SameFields fs gs
        → sort_entries le (entries le fs) ≡ sort_entries le (entries le gs)
    sorted-SameFields same_end = refl
    sorted-SameFields (same_field {k} {v} {w} {fs} {gs} s r) =
        field_cong k v w fs gs (is_defined-Same s) (text-Same s) (sorted-SameFields r)
    sorted-SameFields (swapped {k} {j} {v} {w} {fs} ne) = field_swap k j v w fs ne
    sorted-SameFields (chained r s) = sorted-SameFields r ∙ sorted-SameFields s
