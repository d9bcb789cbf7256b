-- ===== src/JsMap/Laws.antt =====
-- Reading after writing, sizes, and distinct keys.
use text.Mathlib.TextEquality.{eq_iff}
use pulse_distributed_real_t.Prelude.{
  ◌+◌, String, [], ◌∷◌, none, some, ◌≡◌, refl, ◌=ₛ◌, if◌then◌else◌, length, arith, =ₛ_refl,
}
use pulse_distributed_real_t.JsMap.{
  JsMap, get, set, delete, has, IsDistinct, AllValues, contains, keys,
}

module _ {ℓ} {V : Type ℓ} where
  pub get-set :
      (j k : String) (v : V) (m : JsMap V)
      → get j (set k v m) ≡ (if k =ₛ j then some v else get j m)
  unfolding get set
  get-set j k v [] = refl
  get-set j k v ((i, w) ∷ m) = ground (arith, eq_iff k j, eq_iff i k, eq_iff i j, get-set j k v m)

  pub get-delete :
      (j k : String) (m : JsMap V) → get j (delete k m) ≡ (if k =ₛ j then none else get j m)
  unfolding get delete
  get-delete j k [] = ground arith
  get-delete j k ((i, w) ∷ m) = ground (arith, eq_iff k j, eq_iff i k, eq_iff i j, get-delete j k m)

  pub get-set_self : (k : String) (v : V) (m : JsMap V) → get k (set k v m) ≡ some v
  get-set_self k v m = ground (arith, get-set k k v m, =ₛ_refl k)

  pub get-delete_self : (k : String) (m : JsMap V) → get k (delete k m) ≡ none
  get-delete_self k m = ground (arith, get-delete k k m, =ₛ_refl k)

  pub set-IsDistinct : (k : String) (v : V) (m : JsMap V) → IsDistinct m → IsDistinct (set k v m)
  unfolding get set
  set-IsDistinct k v [] d = (refl, tt)
  set-IsDistinct k v ((i, w) ∷ m) d =
      ground (arith, set-IsDistinct k v m d.1, get-set i k v m, eq_iff i k, eq_iff k i)

  pub delete-IsDistinct : (k : String) (m : JsMap V) → IsDistinct m → IsDistinct (delete k m)
  unfolding delete
  delete-IsDistinct k [] d = tt
  delete-IsDistinct k ((i, w) ∷ m) d = ground (arith, delete-IsDistinct k m d.1, get-delete i k m)

  pub length-set :
      (k : String) (v : V) (m : JsMap V)
      → length (set k v m) ≡ (if has k m then length m else length m + 1)
  unfolding get set
  length-set k v [] = refl
  length-set k v ((i, w) ∷ m) = ground (arith, length-set k v m)

  pub delete_of_none : (k : String) (m : JsMap V) → get k m ≡ none → delete k m ≡ m
  unfolding get delete
  delete_of_none k [] h = refl
  delete_of_none k ((i, w) ∷ m) h = ground (arith, delete_of_none k m)

  pub length-delete :
      (k : String) (m : JsMap V)
      → IsDistinct m
      → length (delete k m) + (if has k m then 1 else 0) ≡ length m
  unfolding get delete
  length-delete k [] d = refl
  length-delete k ((i, w) ∷ m) d =
      ground (arith, length-delete k m d.1, delete_of_none k m, eq_iff i k)

  -- What holds of all values holds of those that are read, written and kept.
  module _ {κ} (P : V → Type κ) where
    pub AllValues-get : (k : String) (v : V) (m : JsMap V) → AllValues P m → get k m ≡ some v → P v
    unfolding get
    AllValues-get k v [] h e = cc
    AllValues-get k v ((i, w) ∷ m) h e = ground (arith, AllValues-get k v m h.1)

    pub AllValues-set :
        (k : String) (v : V) (m : JsMap V) → AllValues P m → P v → AllValues P (set k v m)
    unfolding set
    AllValues-set k v [] h p = (p, tt)
    AllValues-set k v ((i, w) ∷ m) h p = ground (arith, AllValues-set k v m h.1 p)

    pub AllValues-delete : (k : String) (m : JsMap V) → AllValues P m → AllValues P (delete k m)
    unfolding delete
    AllValues-delete k [] h = tt
    AllValues-delete k ((i, w) ∷ m) h = ground (arith, AllValues-delete k m h.1)

  pub contains-keys : (k : String) (m : JsMap V) → contains k (keys m) ≡ has k m
  unfolding get contains
  contains-keys k [] = refl
  contains-keys k ((i, w) ∷ m) = ground (arith, contains-keys k m)
