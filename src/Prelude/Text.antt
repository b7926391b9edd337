-- ===== src/Prelude/Text.antt =====
-- Prefixes of texts: strings.HasPrefix and strings.TrimPrefix; the order of texts that `<` and sort.Strings
-- use, by code point and thus by byte.
use Prim.Native.Char.{Char, code}
use Prim.Native.String
use Prim.Native.String.{String}
use mathlib.Core.Path.{◌≡◌, refl}
use mathlib.Core.Bool.{Bool, true, false}
use mathlib.Core.Option.{Option, none, some}
use mathlib.Core.List.{List, [], ◌∷◌}
use mathlib.Core.Logic.{inl, inr}
use native.Mathlib.Omega.{arith}
use text.Mathlib.TextLemmas.{nil-append, cons-append}
use cellarkeep_server.Prelude.Tests.{if◌then◌else◌, Bool-cases, ltb, ◌==◌, nat_eq, is_some}

-- What follows the prefix, if the text has it.
unfoldable pub strip_prefix : String → String → Option String
strip_prefix String.[] s = some s
strip_prefix (String.◌∷◌ c p) String.[] = none
strip_prefix (String.◌∷◌ c p) (String.◌∷◌ d s) = if code c == code d then strip_prefix p s else none

unfoldable pub has_prefix : String → String → Bool
unfolding strip_prefix
has_prefix s prefix = is_some (strip_prefix prefix s)

abbrev pub or_whole : String → Option String → String
or_whole s none = s
or_whole s (some rest) = rest

unfoldable pub trim_prefix : String → String → String
unfolding strip_prefix
trim_prefix s prefix = or_whole s (strip_prefix prefix s)

strip_prefix-append : (p s : String) → strip_prefix p (String.◌++◌ p s) ≡ some s
unfolding strip_prefix
strip_prefix-append String.[] s = rw nil-append refl
strip_prefix-append (String.◌∷◌ c p) s = rw cons-append (ground (arith, strip_prefix-append p s))

pub trim_prefix-append : (p s : String) → trim_prefix (String.◌++◌ p s) p ≡ s
unfolding trim_prefix
trim_prefix-append p s = rw (strip_prefix-append p s, or_whole)

pub has_prefix-append : (p s : String) → has_prefix (String.◌++◌ p s) p ≡ true
unfolding has_prefix
has_prefix-append p s = rw (strip_prefix-append p s, is_some)

abbrev pub before : String → String → Bool
before String.[] String.[] = false
before String.[] (String.◌∷◌ d s) = true
before (String.◌∷◌ c p) String.[] = false
before (String.◌∷◌ c p) (String.◌∷◌ d s) =
    let rest = before p s in if code c == code d then rest else ltb (code c) (code d)

abbrev cons_head : Char → List String → List String
cons_head c [] = String.◌∷◌ c "" ∷ []
cons_head c (x ∷ xs) = String.◌∷◌ c x ∷ xs

-- strings.Split by a separator of one character
unfoldable pub split : Char → String → List String
split sep String.[] = "" ∷ []
split sep (String.◌∷◌ c s) =
    let rest = split sep s in if code c == code sep then "" ∷ rest else cons_head c rest

-- Whether the character is not in the text.
unfoldable pub lacks : Char → String → Bool
lacks sep String.[] = true
lacks sep (String.◌∷◌ c s) = let rest = lacks sep s in if code c == code sep then false else rest

-- A separator ends the first part.
pub split-append :
    (sep : Char) (a b : String)
    → lacks sep a ≡ true
    → split sep (String.◌++◌ a (String.◌∷◌ sep b)) ≡ a ∷ split sep b
unfolding split lacks
split-append sep String.[] b h = rw nil-append (ground arith)
split-append sep (String.◌∷◌ c a) b h = rw cons-append (elim (Bool-cases (code c == code sep)) [
  | inl same ↦ absurd (ground arith)
  | inr apart ↦ rw (apart, split-append sep a b (ground arith)) refl
])

-- A text without the separator is one part.
pub split_lem : (sep : Char) (a : String) → lacks sep a ≡ true → split sep a ≡ a ∷ []
unfolding split lacks
split_lem sep String.[] h = refl
split_lem sep (String.◌∷◌ c a) h = elim (Bool-cases (code c == code sep)) [
  | inl same ↦ absurd (ground arith)
  | inr apart ↦ rw (apart, split_lem sep a (ground arith)) refl
]
