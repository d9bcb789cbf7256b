-- ===== src/OriginMatcher.antt =====
-- src/utils/OriginMatcher.ts. The language's lower case and its URL parser are parameters.
pub mod Wildcards
use Prim.Native.Char.{code}
use Prim.Native.String.{[] as []ₛ, ◌∷◌ as ◌∷ₛ◌}
use pulse_distributed_real_t.Prelude.{
  ℕ, suc, String, List, [], ◌∷◌, Option, none, some, Bool, true, false, not, ◌&&◌, ◌||◌, ◌==◌, ◌+ₛ◌,
  ◌=ₛ◌, if◌then◌else◌, truthy, trim, drop_prefix, ltb, ◌+◌,
}

-- What `new URL(text)` tells: the protocol with its colon, and an empty port if there is none.
pub record Url : Type 0 where
  pub protocol : String
  pub hostname : String
  pub port : String

pub record UrlLib : Type 0 where
  pub to_lower_case : String → String
  pub parse : String → Option Url

-- text.replace(/\/+$/, '')
unfoldable pub strip_slashes : String → String
strip_slashes []ₛ = ""
strip_slashes (c ∷ₛ s) =
    let rest = strip_slashes s in if code c == 47 && not (truthy rest) then "" else c ∷ₛ rest

-- The text before a separator's first place, and the text after it.
unfoldable pub cut : String → String → Option (String × String)
unfolding drop_prefix
cut separator []ₛ = none
cut separator (c ∷ₛ s) =
    let rest = cut separator s in
    elim (drop_prefix separator (c ∷ₛ s)) [
      | some after ↦ some ("", after)
      | none ↦ elim rest [ none ↦ none | some (before, after) ↦ some (c ∷ₛ before, after) ]
    ]

-- text.split(separator)[0]
unfoldable pub first_part : String → String → String
unfolding cut
first_part separator s = elim (cut separator s) [ none ↦ s | some (before, after) ↦ before ]

unfoldable pub ends_with : String → String → Bool
ends_with suffix []ₛ = suffix =ₛ ""
ends_with suffix (c ∷ₛ s) = let rest = ends_with suffix s in (c ∷ₛ s) =ₛ suffix || rest

unfoldable pub text_length : String → ℕ
text_length []ₛ = 0
text_length (c ∷ₛ s) = suc (text_length s)

-- A host under a domain: a label that is not empty, a dot and the domain.
unfoldable pub is_under : String → String → Bool
unfolding ends_with text_length
is_under domain_pattern host_part =
    ends_with ("." +ₛ domain_pattern) host_part
    && ltb (text_length domain_pattern + 1) (text_length host_part)

unfoldable pub matches_wildcard : String → String → Bool
unfolding cut first_part is_under drop_prefix
matches_wildcard header allowed = elim (cut "://*." allowed) [
  | none ↦ false
  | some (protocol, rest) ↦ elim (drop_prefix (protocol +ₛ "://") header) [
    | none ↦ false
    | some tail ↦ is_under (first_part "://*." rest) (first_part ":" tail)
  ]
]

unfoldable pub is_listed : String → List String → Bool
is_listed text [] = false
is_listed text (t ∷ ts) = t =ₛ text || is_listed text ts

module _ (lib : UrlLib) where
  abbrev pub origin_of : Url → String
  origin_of url =
      let is_default =
        (url.protocol =ₛ "http:" && url.port =ₛ "80")
        || (url.protocol =ₛ "https:" && url.port =ₛ "443")
        || not (truthy url.port) in
      if is_default
      then url.protocol +ₛ "//" +ₛ url.hostname
      else url.protocol +ₛ "//" +ₛ url.hostname +ₛ ":" +ₛ url.port

  unfoldable pub normalize_origin : String → String
  unfolding strip_slashes
  normalize_origin origin =
      let trimmed = strip_slashes (lib.to_lower_case (trim origin)) in
      elim (lib.parse trimmed) [ none ↦ trimmed | some url ↦ origin_of url ]

  unfoldable pub matches_any : String → List String → Bool
  unfolding matches_wildcard normalize_origin
  matches_any header [] = false
  matches_any header (allowed ∷ rest) =
      allowed =ₛ "*"
      || header =ₛ normalize_origin allowed
      || matches_wildcard header (normalize_origin allowed)
      || matches_any header rest

  unfoldable pub is_allowed : Option String → Option (List String) → Bool
  unfolding matches_any is_listed
  is_allowed header none = true
  is_allowed none (some allowed) = true
  is_allowed (some header) (some allowed) =
      is_listed "*" allowed || trim header =ₛ "" || matches_any (normalize_origin header) allowed
