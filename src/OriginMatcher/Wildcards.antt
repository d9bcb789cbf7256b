-- ===== src/OriginMatcher/Wildcards.antt =====
-- src/utils/OriginMatcher.ts: which hosts a wildcard lets through, and what an empty list does.
use Prim.Native.Char.{code, Char}
use Prim.Native.String.{[] as []ₛ, ◌∷◌ as ◌∷ₛ◌}
use text.Mathlib.TextEquality.{eq_iff}
use text.Mathlib.TextLemmas.{nil-append, cons-append}
use pulse_distributed_real_t.Prelude.{
  ℕ, String, [], none, some, Bool, true, false, ◌≡◌, ◌=ₛ◌, ◌+ₛ◌, ◌+◌, ◌==◌, ◌||◌, ◌∙◌, ◌↔◌, ap, sym,
  arith, refl, trim, truthy, truthy-false, drop_prefix, drop_prefix-append, Bool-cases, inl, inr,
  =ₛ_refl,
}
use pulse_distributed_real_t.OriginMatcher.{
  UrlLib, cut, first_part, ends_with, text_length, is_under, matches_wildcard, is_allowed,
  is_listed, matches_any,
}

-- The text has a character with the code.
unfoldable pub has_code : ℕ → String → Bool
has_code n []ₛ = false
has_code n (c ∷ₛ s) = code c == n || has_code n s

text_length-append : (s t : String) → text_length (s +ₛ t) ≡ text_length s + text_length t
unfolding text_length
text_length-append []ₛ t = rw nil-append (omega arith)
text_length-append (c ∷ₛ s) t = rw cons-append (ground (arith, text_length-append s t))

ends_with_self : (s : String) → ends_with s s ≡ true
unfolding ends_with
ends_with_self []ₛ = refl
ends_with_self (c ∷ₛ s) = ground (arith, =ₛ_refl (c ∷ₛ s))

ends_with-append : (s t : String) → ends_with t (s +ₛ t) ≡ true
unfolding ends_with
ends_with-append []ₛ t = rw nil-append (ends_with_self t)
ends_with-append (c ∷ₛ s) t = rw cons-append (ground (arith, ends_with-append s t))

-- What a text that ends with another has before it.
ends_with-split : (suffix s : String) → ends_with suffix s ≡ true → (l : String) × (s ≡ l +ₛ suffix)
unfolding ends_with
ends_with-split suffix []ₛ h = ([]ₛ, rw nil-append (sym ((eq_iff suffix "").0 h)))
ends_with-split suffix (c ∷ₛ s) h = elim (Bool-cases ((c ∷ₛ s) =ₛ suffix)) [
  | inl same ↦ ([]ₛ, rw nil-append ((eq_iff (c ∷ₛ s) suffix).0 same))
  | inr apart ↦
      let (l, e) = ends_with-split suffix s (ground (arith, h, apart)) in
      (c ∷ₛ l, rw cons-append (ap (λ x. c ∷ₛ x) e))
]

cut_here :
    (separator s after : String)
    → truthy s ≡ true
    → drop_prefix separator s ≡ some after
    → cut separator s ≡ some ("", after)
unfolding cut
cut_here separator []ₛ after h e = cc
cut_here separator (c ∷ₛ s) after h e = ground (arith, e)

cut_later :
    (separator : String) (c : Char) (s before after : String)
    → drop_prefix separator (c ∷ₛ s) ≡ none
    → cut separator s ≡ some (before, after)
    → cut separator (c ∷ₛ s) ≡ some (c ∷ₛ before, after)
unfolding cut
cut_later separator c s before after h e = ground (arith, h, e)

truthy-append : (s t : String) → truthy s ≡ true → truthy (s +ₛ t) ≡ true
truthy-append []ₛ t h = cc
truthy-append (c ∷ₛ s) t h = rw cons-append refl

not_here : (c : Char) (s : String) → (code c == 58) ≡ false → drop_prefix "://*." (c ∷ₛ s) ≡ none
unfolding drop_prefix
not_here c s h = ground (arith, h)

cut_wildcard :
    (p d : String) → has_code 58 p ≡ false → cut "://*." (p +ₛ ("://*." +ₛ d)) ≡ some (p, d)
unfolding has_code
cut_wildcard []ₛ d h = rw nil-append (
    cut_here "://*." ("://*." +ₛ d) d (truthy-append "://*." d refl) (drop_prefix-append "://*." d))
cut_wildcard (c ∷ₛ p) d h = rw cons-append (
    cut_later "://*." c (p +ₛ ("://*." +ₛ d)) p d
      (not_here c (p +ₛ ("://*." +ₛ d)) (ground (arith, h))) (cut_wildcard p d (ground (arith, h))))

-- A host under a domain is a label that is not empty, a dot and the domain.
is_under-label : (l d : String) → truthy l ≡ true → is_under d (l +ₛ ("." +ₛ d)) ≡ true
unfolding is_under text_length
is_under-label []ₛ d h = cc
is_under-label (c ∷ₛ l) d h =
    let s = "." +ₛ d in
    ground
      (arith, ends_with-append (c ∷ₛ l) s, text_length-append (c ∷ₛ l) s, text_length-append "." d)

label-is_under :
    (d host : String)
    → is_under d host ≡ true
    → (l : String) × (truthy l ≡ true) × (host ≡ l +ₛ ("." +ₛ d))
unfolding is_under text_length
label-is_under d host h =
    let (l, e) = ends_with-split ("." +ₛ d) host (ground (arith, h)) in
    elim (Bool-cases (truthy l)) [
      | inl label ↦ (l, label, e)
      | inr none_left ↦
          let bare : host ≡ "." +ₛ d =
            e ∙ ap (λ x. x +ₛ ("." +ₛ d)) (truthy-false l none_left) ∙ nil-append ("." +ₛ d) in
          absurd (ground (arith, h, ap text_length bare, text_length-append "." d))
    ]

first_part_whole : (separator s : String) → cut separator s ≡ none → first_part separator s ≡ s
unfolding first_part
first_part_whole separator s h = ground (arith, h)

matches_wildcard_lem :
    (p d host : String)
    → has_code 58 p ≡ false
    → cut "://*." d ≡ none
    → matches_wildcard ((p +ₛ "://") +ₛ host) (p +ₛ ("://*." +ₛ d))
      ≡ is_under d (first_part ":" host)
unfolding matches_wildcard
matches_wildcard_lem p d host h whole = ground (
  arith,
  cut_wildcard p d h,
  drop_prefix-append (p +ₛ "://") host,
  first_part_whole "://*." d whole,
)

-- A normalized origin matches a wildcard of the same protocol just if its host, without the port,
-- is a label that is not empty, a dot and the wildcard's domain. The protocol has no colon and the
-- domain no second wildcard.
pub matches_wildcard-host :
    (p d host : String)
    → has_code 58 p ≡ false
    → cut "://*." d ≡ none
    → (matches_wildcard ((p +ₛ "://") +ₛ host) (p +ₛ ("://*." +ₛ d)) ≡ true)
      ↔ ((l : String) × (truthy l ≡ true) × (first_part ":" host ≡ l +ₛ ("." +ₛ d)))
matches_wildcard-host p d host h whole =
    let e = matches_wildcard_lem p d host h whole in
    (
      λ yes. label-is_under d (first_part ":" host) (sym e ∙ yes),
      λ x. e ∙ ap (is_under d) x.2 ∙ is_under-label x.0 d x.1,
    )

-- A list without entries lets no origin through, while no list lets every origin through.
pub is_allowed-empty :
    (lib : UrlLib) (header : String)
    → (trim header =ₛ "") ≡ false
    → (is_allowed lib (some header) (some []) ≡ false) × (is_allowed lib (some header) none ≡ true)
unfolding is_allowed is_listed matches_any
is_allowed-empty lib header h = (ground (arith, h), refl)
