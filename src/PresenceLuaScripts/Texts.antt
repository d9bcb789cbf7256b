-- ===== src/PresenceLuaScripts/Texts.antt =====
-- src/redis/PresenceLuaScripts.ts: the cutting and joining of texts.
use Prim.Native.Char.{Char, code}
use Prim.Native.String.{[] as []ₛ, ◌∷◌ as ◌∷ₛ◌, ◌∷◌}
use pulse_distributed_real_t.Prelude.{
  String, Option, List, some, none, [], if◌then◌else◌, ◌+ₛ◌, ◌==◌, ◌∷◌,
}

unfoldable pub grow_front : Char → Option (String × String) → Option (String × String)
grow_front c none = none
grow_front c (some (front, back)) = some (c ∷ₛ front, back)

-- The parts before and after the first colon.
unfoldable pub split_colon : String → Option (String × String)
unfolding grow_front
split_colon []ₛ = none
split_colon (c ∷ₛ s) =
    let rest = split_colon s in if code c == 58 then some ("", s) else grow_front c rest

-- table.concat(onlineMembers, ',')
unfoldable pub join_commas : List String → String
join_commas [] = ""
join_commas (x ∷ []) = x
join_commas (x ∷ y ∷ xs) = x +ₛ "," +ₛ join_commas (y ∷ xs)

-- text.split(','): the first part and the others.
unfoldable pub split_commas : String → String × List String
split_commas []ₛ = ("", [])
split_commas (c ∷ₛ s) =
    let (part, parts) = split_commas s in
    if code c == 44 then ("", part ∷ parts) else (c ∷ₛ part, parts)
