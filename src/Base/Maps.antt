-- ===== src/Base/Maps.antt =====
-- Maps from strings to strings, as lists of pairs: `m[key]`, with and without the second result.
use Prim.Native.String.{String}
use mathlib.Core.List.{List, [], ◌∷◌}
use mathlib.Core.Option.{Option, none, some}
use text.Mathlib.Text.{◌==◌}
use managed_cluster_validati.Base.Tests.{if◌then◌else◌}

abbrev pub Labels : Type 0
Labels = List (String × String)

-- `v, found := m[key]`
unfoldable pub lookup : String → Labels → Option String
lookup key [] = none
lookup key ((k, v) ∷ m) = if k == key then some v else lookup key m

abbrev pub or_empty : Option String → String
or_empty none = ""
or_empty (some v) = v

-- `m[key]` is the empty string where the key is absent.
unfoldable pub value_of : String → Labels → String
value_of key m = or_empty (lookup key m)
