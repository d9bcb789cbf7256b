-- ===== src/PresenceLuaScripts/Members.antt =====
-- src/redis/PresenceLuaScripts.ts: members and rosters as texts, read back.
use Prim.Native.Char.{code}
use Prim.Native.String.{[] as []ₛ, ◌∷◌ as ◌∷ₛ◌, String}
use text.Mathlib.TextLemmas.{append_assoc, nil-append, cons-append}
use pulse_distributed_real_t.PresenceLuaScripts.{
  grow_front, split_colon, ℕ, split_commas, format_presence_member, join_commas, filter_truthy,
  parse_roster, parse_presence_member, ◌>>=◌,
}
use pulse_distributed_real_t.Prelude.{
  ℕ, String, ◌≡◌, ◌==◌, ◌+ₛ◌, false, ◌∷◌, [], arith, refl, some, truthy, trim, List, true, All, ap,
  truthy_of_trim, ◌=ₛ◌, ◌∙◌, truthy-ne-nil, trim-append,
}

-- A text without the character of the code `n`.
abbrev pub Lacks : ℕ → String → Type 0
Lacks n []ₛ = Unit
Lacks n (c ∷ₛ s) = ((code c == n) ≡ false) × Lacks n s

split_colon-append :
    (front back : String)
    → Lacks 58 front
    → split_colon (front +ₛ (":" +ₛ back)) ≡ some (front, back)
unfolding split_colon grow_front
split_colon-append []ₛ back h = rw nil-append (rw cons-append (rw nil-append refl))
split_colon-append (c ∷ₛ front) back h =
    rw cons-append (ground (arith, split_colon-append front back h.1, h))

split_commas-append :
    (front back : String)
    → Lacks 44 front
    → split_commas (front +ₛ ("," +ₛ back)) ≡ (front, (split_commas back).0 ∷ (split_commas back).1)
unfolding split_commas
split_commas-append []ₛ back h = rw nil-append (rw cons-append (rw nil-append refl))
split_commas-append (c ∷ₛ front) back h =
    rw cons-append (ground (arith, split_commas-append front back h.1, h))

split_commas-Lacks : (s : String) → Lacks 44 s → split_commas s ≡ (s, [])
unfolding split_commas
split_commas-Lacks []ₛ h = refl
split_commas-Lacks (c ∷ₛ s) h = ground (arith, h, split_commas-Lacks s)

parse_of_parts :
    (whole front back : String)
    → split_colon whole ≡ some (front, back)
    → truthy front ≡ true
    → truthy back ≡ true
    → parse_presence_member whole ≡ some (front, back)
unfolding parse_presence_member
parse_of_parts whole front back e f b = rw e (rw f (rw b refl))

-- A member is read back as it was written, if the instance id has no colon.
pub parse-format :
    (instance_id connection_id : String)
    → Lacks 58 instance_id
    → truthy instance_id ≡ true
    → truthy connection_id ≡ true
    → (format_presence_member instance_id connection_id >>= parse_presence_member)
      ≡ some (instance_id, connection_id)
unfolding format_presence_member parse_presence_member
parse-format instance_id connection_id h named connected =
    let whole = instance_id +ₛ ":" +ₛ connection_id in
    let e =
      ap split_colon (append_assoc instance_id ":" connection_id)
      ∙ split_colon-append instance_id connection_id h in
    rw named (rw connected (parse_of_parts whole instance_id connection_id e named connected))

-- A user id that a roster gives back: not blank, and without a comma.
abbrev pub IsPlain : String → Type 0
IsPlain s = Lacks 44 s × (truthy (trim s) ≡ true)

split_commas-join :
    (x : String) (xs : List String)
    → All IsPlain (x ∷ xs)
    → split_commas (join_commas (x ∷ xs)) ≡ (x, xs)
unfolding join_commas
split_commas-join x [] h = split_commas-Lacks x h.0.0
split_commas-join x (y ∷ ys) h =
    ap split_commas (append_assoc x "," (join_commas (y ∷ ys)))
    ∙ split_commas-append x (join_commas (y ∷ ys)) h.0.0
    ∙ ap (λ p. (x, p.0 ∷ p.1)) (split_commas-join y ys h.1)

IsPlain-truthy : (x : String) → IsPlain x → truthy x ≡ true
IsPlain-truthy x h = truthy_of_trim x (truthy-ne-nil (trim x) h.1)

join_commas-ink :
    (x : String) (xs : List String) → IsPlain x → (trim (join_commas (x ∷ xs)) =ₛ "") ≡ false
unfolding join_commas
join_commas-ink x [] h = truthy-ne-nil (trim x) h.1
join_commas-ink x (y ∷ ys) h =
    ap (λ s. trim s =ₛ "") (append_assoc x "," (join_commas (y ∷ ys)))
    ∙ trim-append x ("," +ₛ join_commas (y ∷ ys)) h.1

filter_truthy_of_IsPlain : (xs : List String) → All IsPlain xs → filter_truthy xs ≡ xs
unfolding filter_truthy
filter_truthy_of_IsPlain [] h = refl
filter_truthy_of_IsPlain (x ∷ xs) h =
    ground (arith, IsPlain-truthy x h.0, filter_truthy_of_IsPlain xs h.1)

parse_roster-nil : parse_roster (join_commas []) ≡ []
unfolding parse_roster join_commas
parse_roster-nil = refl

pub parse_roster-join : (xs : List String) → All IsPlain xs → parse_roster (join_commas xs) ≡ xs
unfolding parse_roster filter_truthy
parse_roster-join [] h = parse_roster-nil
parse_roster-join (x ∷ xs) h =
    let ink = join_commas-ink x xs h.0 in
    rw (truthy_of_trim (join_commas (x ∷ xs)) ink)
      (rw ink (rw (split_commas-join x xs h) (filter_truthy_of_IsPlain (x ∷ xs) h)))
