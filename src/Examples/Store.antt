-- ===== src/Examples/Store.antt =====
-- An event store that is a list of events, the oldest first, in which no two have one id.
use vocation_os.Prelude.{
  ◌≡◌, refl, ap, map, Bool, true, ◌&&◌, List, [], ◌∷◌, ◌++◌, Option, none, some, String, any, keep,
  keep-append, arith, eq_refl, ◌===◌, if◌then◌else◌,
}
use vocation_os.Repository.{DomainEvent, DomainPayload, payload_of, EventStore}

abbrev is_of : {T : Type 0} → String → String → DomainEvent T → Bool
is_of aggregate_type aggregate_id e =
    e.aggregate_type === aggregate_type && e.aggregate_id === aggregate_id

-- No two events have one id.
abbrev append_new :
    {T : Type 0} → List (DomainEvent T) → DomainEvent T → Option (List (DomainEvent T))
append_new s e = if any (λ x. x.event_id === e.event_id) s then none else some (s ++ e ∷ [])

appended :
    {T : Type 0} (s t : List (DomainEvent T)) (e : DomainEvent T)
    → append_new s e ≡ some t
    → t ≡ s ++ e ∷ []
appended s t e h = ground arith

-- The payloads of the events of an aggregate.
abbrev payloads : {T : Type 0} → List (DomainEvent T) → (String × String) → List (DomainPayload T)
payloads s (aggregate_type, aggregate_id) =
    map payload_of (keep (is_of aggregate_type aggregate_id) s)

map-append {ℓ κ} :
    {A : Type ℓ} {B : Type κ} (f : A → B) (xs ys : List A) → map f (xs ++ ys) ≡ map f xs ++ map f ys
map-append f [] ys = refl
map-append f (x ∷ xs) ys = ap (λ zs. f x ∷ zs) (map-append f xs ys)

pub own :
    {T : Type 0} (s t : List (DomainEvent T)) (e : DomainEvent T) (es : List (DomainPayload T))
    → append_new s e ≡ some t
    → some (payloads s (e.aggregate_type, e.aggregate_id)) ≡ some es
    → some (payloads t (e.aggregate_type, e.aggregate_id)) ≡ some (es ++ payload_of e ∷ [])
own s t e es h read =
    let mine : is_of e.aggregate_type e.aggregate_id e ≡ true =
      ground (arith, eq_refl e.aggregate_type, eq_refl e.aggregate_id) in
    let before : payloads s (e.aggregate_type, e.aggregate_id) ≡ es = ground arith in
    rw
      (
        appended s t e h,
        keep-append (is_of e.aggregate_type e.aggregate_id) s (e ∷ []),
        mine,
        map-append payload_of (keep (is_of e.aggregate_type e.aggregate_id) s) (e ∷ []),
        before,
      )
      refl

abbrev pub list_store : (T : Type 0) → EventStore T
list_store T = record {
  Store = List (DomainEvent T);
  read_aggregate =
      λ s aggregate_type aggregate_id. some (payloads s (aggregate_type, aggregate_id));
  append = append_new;
  ReadsBack = λ s e. Unit;
  read_own = λ s t e es h _. own s t e es h;
}
