-- ===== src/JsMap.antt =====
-- The `Map<string, V>` and `Set<string>` of the language: entries in insertion order. Setting a
-- key that is present keeps its place; deleting and setting again moves it to the end.
pub mod Laws
use pulse_distributed_real_t.Prelude.{
  ℕ, String, List, [], ◌∷◌, Option, none, some, Bool, false, ◌||◌, true, false, map, ◌≡◌, ◌=ₛ◌,
  if◌then◌else◌, is_some, length,
}

abbrev pub JsMap {ℓ} : Type ℓ → Type ℓ
JsMap V = List (String × V)

-- A set is a map that holds nothing but its keys.
abbrev pub JsSet : Type 0
JsSet = JsMap (Unit {0})

module _ {ℓ} {V : Type ℓ} where
  unfoldable pub get : String → JsMap V → Option V
  get k [] = none
  get k ((j, v) ∷ m) = if j =ₛ k then some v else get k m

  unfoldable pub set : String → V → JsMap V → JsMap V
  set k v [] = (k, v) ∷ []
  set k v ((j, w) ∷ m) = if j =ₛ k then (j, v) ∷ m else (j, w) ∷ set k v m

  unfoldable pub delete : String → JsMap V → JsMap V
  delete k [] = []
  delete k ((j, v) ∷ m) = let rest = delete k m in if j =ₛ k then rest else (j, v) ∷ rest

  abbrev pub has : String → JsMap V → Bool
  has k m = is_some (get k m)

  abbrev pub size : JsMap V → ℕ
  size m = length m

  abbrev pub keys : JsMap V → List String
  keys m = map (λ e. e.0) m

  abbrev pub values : JsMap V → List V
  values m = map (λ e. e.1) m

  -- No key twice.
  abbrev pub IsDistinct : JsMap V → Type ℓ
  IsDistinct [] = Unit {ℓ}
  IsDistinct ((k, v) ∷ m) = (get k m ≡ none) × IsDistinct m

module _ {ℓ κ} {V : Type ℓ} where
  abbrev pub AllValues : (V → Type κ) → JsMap V → Type κ
  AllValues P [] = Unit {κ}
  AllValues P ((k, v) ∷ m) = P v × AllValues P m

-- Membership in a list of texts.
unfoldable pub contains : String → List String → Bool
contains k [] = false
contains k (j ∷ js) = j =ₛ k || contains k js

abbrev pub add : String → JsSet → JsSet
add k s = set k tt s
