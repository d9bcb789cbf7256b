-- ===== src/IdempotencyManager/Hash.antt =====
-- `hashPayload` of src/core/IdempotencyManager.ts: SHA-256 of `JSON.stringify` with the sorted
-- top-level keys as its list of allowed properties. The platform prints and digests.
use Prim.Native.String.{compare}
use text.Mathlib.Text.{is_le}
use pulse_distributed_real_t.Prelude.{
  String, List, [], ◌∷◌, none, some, ◌≡◌, refl, ap, if◌then◌else◌, All, arith, ◌∙◌, sym, ◌=ₛ◌, ◌||◌,
}
use pulse_distributed_real_t.JsMap.{contains}
use pulse_distributed_real_t.Json.{
  Json, null, bool, num, str, arr, obj, Items, nil, item, Fields, end, field, get_field,
  object_keys,
}

-- What the code relies on: printing a tree as JSON text, and the digest in hexadecimal.
pub record Platform : Type 0 where
  pub stringify : Json → String
  pub sha256 : String → String

-- Array.prototype.sort on texts, by character codes.
insert_key : String → List String → List String
insert_key k [] = k ∷ []
insert_key k (j ∷ js) =
    let rest = insert_key k js in if is_le (compare k j) then k ∷ j ∷ js else j ∷ rest

pub sort_keys : List String → List String
unfolding insert_key
sort_keys [] = []
sort_keys (k ∷ ks) = insert_key k (sort_keys ks)

contains-insert_key :
    (n k : String) (ks : List String) → contains n (insert_key k ks) ≡ (k =ₛ n || contains n ks)
unfolding insert_key contains
contains-insert_key n k [] = refl
contains-insert_key n k (j ∷ js) = ground (arith, contains-insert_key n k js)

-- Sorting keeps the members.
pub contains-sort_keys : (n : String) (ks : List String) → contains n (sort_keys ks) ≡ contains n ks
unfolding sort_keys contains
contains-sort_keys n [] = refl
contains-sort_keys n (k ∷ ks) =
    ground (arith, contains-insert_key n k (sort_keys ks), contains-sort_keys n ks)

-- The properties of an object that the list allows, in the order of the list.
pub select : List String → Fields → Fields
select [] fs = end
select (k ∷ ks) fs = elim (get_field k fs) [
  | none ↦ select ks fs
  | some v ↦ field k v (select ks fs)
]

-- `JSON.stringify(value, allowed)` prints this tree: the list filters the objects at every depth.
mutual
  pub allow : List String → Json → Json
  allow ks (arr xs) = arr (allow_items ks xs)
  allow ks (obj fs) = obj (select ks (allow_fields ks fs))
  allow ks null = null
  allow ks (bool b) = bool b
  allow ks (num n) = num n
  allow ks (str s) = str s

  pub allow_items : List String → Items → Items
  allow_items ks nil = nil
  allow_items ks (item v vs) = item (allow ks v) (allow_items ks vs)

  pub allow_fields : List String → Fields → Fields
  allow_fields ks end = end
  allow_fields ks (field k v fs) = field k (allow ks v) (allow_fields ks fs)

-- Of the payloads that an envelope holds: a validated payload is always an object.
unfoldable pub hash_payload : Platform → Fields → String
unfolding sort_keys
hash_payload p payload =
    p.sha256 (p.stringify (allow (sort_keys (object_keys payload)) (obj payload)))

-- No key of the list is a property of the object.
abbrev pub IsHidden : Fields → List String → Type 0
IsHidden fs = All (λ k. get_field k fs ≡ none)

get_field-allow_fields :
    (k : String) (ks : List String) (fs : Fields)
    → get_field k fs ≡ none
    → get_field k (allow_fields ks fs) ≡ none
unfolding get_field allow_fields
get_field-allow_fields k ks end h = refl
get_field-allow_fields k ks (field j v fs) h = ground (arith, get_field-allow_fields k ks fs)

select-allow_fields :
    (ks js : List String) (fs : Fields) → IsHidden fs js → select js (allow_fields ks fs) ≡ end
unfolding select
select-allow_fields ks [] fs h = refl
select-allow_fields ks (j ∷ js) fs (h, hs) =
    rw (get_field-allow_fields j ks fs h, select) (select-allow_fields ks js fs hs)

IsHidden-insert_key :
    (fs : Fields) (k : String) (ks : List String)
    → get_field k fs ≡ none
    → IsHidden fs ks
    → IsHidden fs (insert_key k ks)
unfolding insert_key
IsHidden-insert_key fs k [] h hs = (h, tt)
IsHidden-insert_key fs k (j ∷ js) h hs = ground (arith, IsHidden-insert_key fs k js h hs.1)

IsHidden-sort_keys : (fs : Fields) (ks : List String) → IsHidden fs ks → IsHidden fs (sort_keys ks)
unfolding sort_keys
IsHidden-sort_keys fs [] h = tt
IsHidden-sort_keys fs (k ∷ ks) h =
    IsHidden-insert_key fs k (sort_keys ks) h.0 (IsHidden-sort_keys fs ks h.1)

allow_nested :
    (ks : List String) (inner : Fields) → IsHidden inner ks → allow ks (obj inner) ≡ obj end
unfolding allow
allow_nested ks inner h = ap obj (select-allow_fields ks ks inner h)

-- Two payloads that differ in the object under their first key only, where no key of the payload is
-- a key of either object, have one hash.
pub hash_payload_nested :
    (p : Platform) (k : String) (inner inner' rest : Fields)
    → IsHidden inner (k ∷ object_keys rest)
    → IsHidden inner' (k ∷ object_keys rest)
    → hash_payload p (field k (obj inner) rest) ≡ hash_payload p (field k (obj inner') rest)
unfolding hash_payload object_keys allow
hash_payload_nested p k inner inner' rest h h' =
    let ks = sort_keys (k ∷ object_keys rest) in
    let same : allow ks (obj inner) ≡ allow ks (obj inner') =
      allow_nested ks inner (IsHidden-sort_keys inner (k ∷ object_keys rest) h)
      ∙ sym (allow_nested ks inner' (IsHidden-sort_keys inner' (k ∷ object_keys rest) h')) in
    ap (λ v. p.sha256 (p.stringify (obj (select ks (field k v (allow_fields ks rest)))))) same
