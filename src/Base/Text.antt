-- ===== src/Base/Text.antt =====
-- Go's functions on strings. `codes` gives the code points; `split` and `join` are those of
-- package strings at a separator of one character.
pub mod Laws
pub mod Order
use Prim.Native.Nat.{ℕ}
use Prim.Native.Char.{Char, code}
use Prim.Native.String
use Prim.Native.String.{String}
use text.Mathlib.Text.{◌==◌}
use mathlib.Core.Bool.{Bool, true, false, ◌&&◌, ◌||◌}
use mathlib.Core.List.{List, [], ◌∷◌}
use mathlib.Core.Option.{Option, none, some}
use managed_cluster_validati.Base.Tests.{nat_eq, if◌then◌else◌}

abbrev pub codes : String → List ℕ
codes String.[] = []
codes (String.◌∷◌ c s) = code c ∷ codes s

-- `strings.HasPrefix(s, prefix)`
unfoldable pub has_prefix : String → String → Bool
has_prefix s String.[] = true
has_prefix String.[] (String.◌∷◌ d p) = false
has_prefix (String.◌∷◌ c s) (String.◌∷◌ d p) = nat_eq (code c) (code d) && has_prefix s p

-- `strings.CutPrefix`: what follows the prefix.
unfoldable pub strip_prefix : String → String → Option String
strip_prefix s String.[] = some s
strip_prefix String.[] (String.◌∷◌ d p) = none
strip_prefix (String.◌∷◌ c s) (String.◌∷◌ d p) =
    let rest = strip_prefix s p in if nat_eq (code c) (code d) then rest else none

-- `strings.Contains(s, substr)`
unfoldable pub has_substring : String → String → Bool
unfolding has_prefix
has_substring String.[] t = has_prefix String.[] t
has_substring (String.◌∷◌ c s) t = has_prefix (String.◌∷◌ c s) t || has_substring s t

-- `strings.HasSuffix(s, suffix)`
unfoldable pub has_suffix : String → String → Bool
has_suffix String.[] t = String.[] == t
has_suffix (String.◌∷◌ c s) t = (String.◌∷◌ c s) == t || has_suffix s t

abbrev put_first : Char → List String → List String
put_first c [] = (String.◌∷◌ c String.[]) ∷ []
put_first c (t ∷ ts) = (String.◌∷◌ c t) ∷ ts

-- `strings.Split(s, sep)`: never empty, and one empty part for the empty string.
unfoldable pub split : ℕ → String → List String
split sep String.[] = "" ∷ []
split sep (String.◌∷◌ c s) =
    let rest = split sep s in if nat_eq (code c) sep then "" ∷ rest else put_first c rest

-- `strings.Join(parts, sep)`
unfoldable pub join : Char → List String → String
join sep [] = ""
join sep (t ∷ []) = t
join sep (t ∷ u ∷ ts) = String.◌++◌ t (String.◌∷◌ sep (join sep (u ∷ ts)))

-- The pieces of a message, and `%v` of a slice of strings.
unfoldable pub concat : List String → String
concat [] = ""
concat (t ∷ ts) = String.◌++◌ t (concat ts)

-- `strings.Join` with a separator of any length.
unfoldable pub join_with : String → List String → String
join_with sep [] = ""
join_with sep (t ∷ []) = t
join_with sep (t ∷ u ∷ ts) = String.◌++◌ t (String.◌++◌ sep (join_with sep (u ∷ ts)))

unfoldable pub print_list : List String → String
unfolding join_with
print_list ts = String.◌++◌ "[" (String.◌++◌ (join_with " " ts) "]")
