-- ===== src/Json.antt =====
-- JSON values as the runtime holds them after `JSON.parse`, and the tests that the validator makes.
use Prim.Native.Nat.{◌^◌}
use pulse_distributed_real_t.Prelude.{
  ℕ, ◌*◌, ◌/◌, ◌%◌, String, List, [], ◌∷◌, Option, none, some, Bool, true, false, not, ◌&&◌, ◌||◌,
  ◌==◌, ◌=ₛ◌, ltb, leb, if◌then◌else◌,
}

-- A double: every finite one is a whole number over a power of two.
pub data Number : Type 0 where
  finite : (negative : Bool) (mantissa shift : ℕ) → Number
  infinite : (negative : Bool) → Number
  nan : Number

mutual
  pub data Json : Type 0 where
    null : Json
    bool : Bool → Json
    num : Number → Json
    str : String → Json
    arr : Items → Json
    obj : Fields → Json

  pub data Items : Type 0 where
    nil : Items
    item : Json → Items → Items

  pub data Fields : Type 0 where
    end : Fields
    field : String → Json → Fields → Fields

abbrev pub whole : ℕ → Number
whole n = finite false n 0

-- x > 0
unfoldable pub is_positive : Number → Bool
is_positive (finite negative m s) = not negative && ltb 0 m
is_positive (infinite negative) = not negative
is_positive nan = false

-- Number.isFinite(x)
unfoldable pub is_finite : Number → Bool
is_finite (finite negative m s) = true
is_finite _ = false

-- Number.isInteger(x)
unfoldable pub is_integer : Number → Bool
is_integer (finite negative m s) = m % 2 ^ s == 0
is_integer _ = false

-- x < 1
unfoldable pub is_below_one : Number → Bool
is_below_one (finite negative m s) = negative || ltb m (2 ^ s)
is_below_one (infinite negative) = negative
is_below_one nan = false

-- The value of a number that is a positive integer.
unfoldable pub to_ℕ : Number → ℕ
to_ℕ (finite negative m s) = m / 2 ^ s
to_ℕ _ = 0

-- x <= y
unfoldable pub le_number : Number → Number → Bool
le_number (finite false m s) (finite false n t) = leb (m * 2 ^ t) (n * 2 ^ s)
le_number (finite true m s) (finite true n t) = leb (n * 2 ^ s) (m * 2 ^ t)
le_number (finite true m s) (finite false n t) = true
le_number (finite false m s) (finite true n t) = m == 0 && n == 0
le_number (finite _ m s) (infinite negative) = not negative
le_number (infinite negative) (finite _ n t) = negative
le_number (infinite a) (infinite b) = a || not b
le_number nan _ = false
le_number (finite _ _ _) nan = false
le_number (infinite _) nan = false

-- The property of an object; `none` is undefined.
unfoldable pub get_field : String → Fields → Option Json
get_field k end = none
get_field k (field j v fs) = if j =ₛ k then some v else get_field k fs

abbrev pub is_empty_object : Fields → Bool
is_empty_object end = true
is_empty_object (field k v fs) = false

-- Object.keys(o)
unfoldable pub object_keys : Fields → List String
object_keys end = []
object_keys (field k v fs) = k ∷ object_keys fs

unfoldable pub items : Items → List Json
items nil = []
items (item v vs) = v ∷ items vs

-- Reading a property as a text, when it is one.
abbrev pub as_text : Option Json → Option String
as_text (some (str s)) = some s
as_text _ = none
