-- ===== src/Prelude/Text.antt =====
-- Texts: the comparison of the library with its law, truth of a text, and `String.prototype.trim`.
use Prim.Native.Nat.{ℕ}
use Prim.Native.Char.{code}
use Prim.Native.String.{String, [], ◌∷◌, ◌++◌}
use mathlib.Core.Logic.{inl, inr}
use mathlib.Core.Option.{Option, none, some}
use mathlib.Core.Path.{◌∙◌, ap, sym, subst}
use native.Mathlib.Omega.{arith}
use text.Mathlib.TextLemmas.{nil-append, cons-append, append_cancel_left}
use mathlib.Core.Path.{◌≡◌, refl}
use mathlib.Core.Bool.{Bool, true, false, not, ◌||◌, ◌&&◌}
use text.Mathlib.Text
use text.Mathlib.TextEquality
use pulse_distributed_real_t.Prelude.Tests.{Bool-cases, if◌then◌else◌, leb, ◌==◌}

infixl 65 ◌+ₛ◌
abbrev pub ◌+ₛ◌ : String → String → String
s +ₛ t = s ++ t

infix 50 ◌=ₛ◌
abbrev pub ◌=ₛ◌ : String → String → Bool
s =ₛ t = Text.◌==◌ s t

pub =ₛ_refl : (s : String) → (s =ₛ s) ≡ true
=ₛ_refl s = (TextEquality.eq_iff s s).1 refl

-- A common prefix does not matter.
pub =ₛ-append : (p s t : String) → (p +ₛ s =ₛ p +ₛ t) ≡ (s =ₛ t)
=ₛ-append p s t = elim (Bool-cases (s =ₛ t)) [
  | inl same ↦ rw ((TextEquality.eq_iff s t).0 same) (=ₛ_refl (p +ₛ t) ∙ sym (=ₛ_refl t))
  | inr other ↦ elim (Bool-cases (p +ₛ s =ₛ p +ₛ t)) [
    | inl same ↦
        let e = append_cancel_left p s t ((TextEquality.eq_iff (p +ₛ s) (p +ₛ t)).0 same) in
        cc ((TextEquality.eq_iff s t).1 e)
    | inr apart ↦ apart ∙ sym other
  ]
]

-- A text as a condition: the empty text is false.
abbrev pub truthy : String → Bool
truthy [] = false
truthy (c ∷ s) = true

pub truthy-false : (s : String) → truthy s ≡ false → s ≡ ""
truthy-false [] h = refl
truthy-false (c ∷ s) h = cc

pub truthy-ne-nil : (s : String) → truthy s ≡ true → (s =ₛ "") ≡ false
truthy-ne-nil s h = elim (Bool-cases (s =ₛ "")) [
  | inl e ↦ cc (ap truthy ((TextEquality.eq_iff s "").0 e))
  | inr e ↦ e
]

-- The white space and line terminators of the language.
pub is_space : ℕ → Bool
is_space c =
    (leb 9 c && leb c 13)
    || c == 32
    || c == 160
    || c == 0x1680
    || (leb 0x2000 c && leb c 0x200a)
    || c == 0x2028
    || c == 0x2029
    || c == 0x202f
    || c == 0x205f
    || c == 0x3000
    || c == 0xfeff

pub trim_start : String → String
trim_start [] = []
trim_start (c ∷ s) = if is_space (code c) then trim_start s else c ∷ s

pub trim_end : String → String
trim_end [] = []
trim_end (c ∷ s) =
    let rest = trim_end s in if is_space (code c) && not (truthy rest) then [] else c ∷ rest

unfoldable pub trim : String → String
unfolding trim_start trim_end is_space
trim s = trim_end (trim_start s)

trim_runs : trim " a b  " ≡ "a b"
unfolding trim
trim_runs = refl

-- Not blank at the front.
abbrev StartsClean : String → Type 0
StartsClean [] = Unit
StartsClean (c ∷ s) = is_space (code c) ≡ false

trim_start-StartsClean : (s : String) → StartsClean (trim_start s)
unfolding trim_start
trim_start-StartsClean [] = tt
trim_start-StartsClean (c ∷ s) = elim (Bool-cases (is_space (code c))) [
  | inl blank ↦ rw blank (trim_start-StartsClean s)
  | inr ink ↦ rw ink ink
]

trim_end-StartsClean : (s : String) → StartsClean s → StartsClean (trim_end s)
unfolding trim_end
trim_end-StartsClean [] h = tt
trim_end-StartsClean (c ∷ s) h = rw h h

trim_start_of_StartsClean : (s : String) → StartsClean s → trim_start s ≡ s
unfolding trim_start
trim_start_of_StartsClean [] h = refl
trim_start_of_StartsClean (c ∷ s) h = rw h

trim_end_idem : (s : String) → trim_end (trim_end s) ≡ trim_end s
unfolding trim_end
trim_end_idem [] = refl
trim_end_idem (c ∷ s) = ground (arith, trim_end_idem s)

pub trim_idem : (s : String) → trim (trim s) ≡ trim s
unfolding trim
trim_idem s =
    ap trim_end
      (trim_start_of_StartsClean _ (trim_end-StartsClean (trim_start s) (trim_start-StartsClean s)))
    ∙ trim_end_idem (trim_start s)

-- `startsWith`, and `slice` past the prefix; `none` where the text does not start with it.
unfoldable pub drop_prefix : String → String → Option String
drop_prefix [] s = some s
drop_prefix (c ∷ p) [] = none
drop_prefix (c ∷ p) (d ∷ s) = if code c == code d then drop_prefix p s else none

pub drop_prefix-append : (p s : String) → drop_prefix p (p +ₛ s) ≡ some s
unfolding drop_prefix
drop_prefix-append [] s = rw nil-append
drop_prefix-append (c ∷ p) s = rw cons-append (ground (arith, drop_prefix-append p s))

-- The texts differ at a place that both have.
unfoldable pub clash : String → String → Bool
clash [] q = false
clash (c ∷ p) [] = false
clash (c ∷ p) (d ∷ q) = if code c == code d then clash p q else true

pub drop_prefix_of_clash : (p q s : String) → clash p q ≡ true → drop_prefix p (q +ₛ s) ≡ none
unfolding drop_prefix clash
drop_prefix_of_clash [] q s h = cc
drop_prefix_of_clash (c ∷ p) [] s h = cc
drop_prefix_of_clash (c ∷ p) (d ∷ q) s h =
    rw cons-append (ground (arith, drop_prefix_of_clash p q s))

-- Nothing but white space.
abbrev pub IsBlank : String → Type 0
IsBlank [] = Unit
IsBlank (c ∷ s) = (is_space (code c) ≡ true) × IsBlank s

trim_end-IsBlank : (s : String) → truthy (trim_end s) ≡ false → IsBlank s
unfolding trim_end
trim_end-IsBlank [] h = tt
trim_end-IsBlank (c ∷ s) h = ground (arith, trim_end-IsBlank s)

trim_start-IsBlank : (s : String) → IsBlank (trim_start s) → IsBlank s
unfolding trim_start
trim_start-IsBlank [] h = tt
trim_start-IsBlank (c ∷ s) h = ground (arith, h, trim_start-IsBlank s)

trim_start_of_IsBlank : (s : String) → IsBlank s → trim_start s ≡ ""
unfolding trim_start
trim_start_of_IsBlank [] h = refl
trim_start_of_IsBlank (c ∷ s) h = ground (arith, h, trim_start_of_IsBlank s)

IsBlank-front : (s t : String) → IsBlank (s +ₛ t) → IsBlank s
IsBlank-front [] t h = tt
IsBlank-front (c ∷ s) t h =
    let (space, rest) = subst IsBlank (cons-append c s t) h in (space, IsBlank-front s t rest)

-- A text whose front is more than white space is so too.
pub trim-append : (s t : String) → truthy (trim s) ≡ true → (trim (s +ₛ t) =ₛ "") ≡ false
unfolding trim trim_end
trim-append s t h = elim (Bool-cases (trim (s +ₛ t) =ₛ "")) [
  | inl blank ↦
      let none_left = ap truthy ((TextEquality.eq_iff (trim (s +ₛ t)) "").0 blank) in
      let whole = trim_start-IsBlank (s +ₛ t) (trim_end-IsBlank (trim_start (s +ₛ t)) none_left) in
      let front = trim_start_of_IsBlank s (IsBlank-front s t whole) in
      cc (ap (λ u. truthy (trim_end u)) front)
  | inr ink ↦ ink
]

-- What is more than white space is not empty.
pub truthy_of_trim : (s : String) → (trim s =ₛ "") ≡ false → truthy s ≡ true
unfolding trim trim_start trim_end
truthy_of_trim [] h = sym h
truthy_of_trim (c ∷ s) h = refl
