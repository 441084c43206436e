-- ===== src/Regex.antt =====
-- The regular expressions of package regexp that the webhooks use, as syntax trees, and an
-- unanchored search for them, `Regexp.Match`. A pattern text of the source is the tree beside it.
pub mod Semantics
pub mod Decides
pub mod Shapes
use Prim.Native.Nat.{ℕ, zero, suc}
use Prim.Native.Char.{code}
use Prim.Native.String
use Prim.Native.String.{String}
use mathlib.Core.Bool.{Bool, true, false, not, ◌&&◌, ◌||◌}
use mathlib.Core.List.{List, [], ◌∷◌}
use managed_cluster_validati.Base.{ltb, leb, nat_eq, length, any}
use managed_cluster_validati.Base.Text.{codes}

pub data Regex : Type 0 where
  empty begin end any_char : Regex
  literal : ℕ → Regex
  class : List (ℕ × ℕ) → Regex
  seq alt : Regex → Regex → Regex
  star : Regex → Regex

-- A run of literal characters.
abbrev pub chars : String → Regex
chars String.[] = empty
chars (String.◌∷◌ c s) = seq (literal (code c)) (chars s)

-- `r?`, `r{n}`
abbrev pub optional : Regex → Regex
optional r = alt r empty

abbrev pub times : ℕ → Regex → Regex
times zero r = empty
times (suc n) r = seq r (times n r)

-- `^name$` and `^prefix.*`
abbrev pub exactly : String → Regex
exactly name = seq begin (seq (chars name) end)

abbrev pub starting : String → Regex
starting prefix = seq begin (seq (chars prefix) (star any_char))

-- Whether the position is the start of the text, the text that is left, and what to do there.
abbrev pub Continue : Type 0
Continue = Bool → List ℕ → Bool

unfoldable pub in_class : List (ℕ × ℕ) → ℕ → Bool
unfolding any
in_class spans c = any (λ span. leb span.0 c && leb c span.1) spans

abbrev pub at_end : List ℕ → Bool
at_end [] = true
at_end (c ∷ s) = false

-- `.` is any character but a newline.
abbrev pub accept : (ℕ → Bool) → List ℕ → Continue → Bool
accept test [] k = false
accept test (c ∷ s) k = test c && k false s

-- Rounds of a star: stop, or take one more round that uses up some text.
unfoldable pub repeat : (Bool → List ℕ → Continue → Bool) → ℕ → Bool → List ℕ → Continue → Bool
repeat step zero b s k = k b s
repeat step (suc n) b s k =
    k b s || step b s (λ b' s'. ltb (length s') (length s) && repeat step n b' s' k)

unfoldable pub run : Regex → Bool → List ℕ → Continue → Bool
unfolding repeat in_class
run empty b s k = k b s
run begin b s k = b && k b s
run end b s k = at_end s && k b s
run any_char b s k = accept (λ c. not (nat_eq c 10)) s k
run (literal x) b s k = accept (λ c. nat_eq c x) s k
run (class spans) b s k = accept (in_class spans) s k
run (seq r q) b s k = run r b s (λ b' s'. run q b' s' k)
run (alt r q) b s k = run r b s k || run q b s k
run (star r) b s k = repeat (run r) (length s) b s k

abbrev pub accepted : Continue
accepted b s = true

-- A match may begin anywhere.
unfoldable pub search_from : Regex → Bool → List ℕ → Bool
unfolding run
search_from r b [] = run r b [] accepted
search_from r b (c ∷ s) = run r b (c ∷ s) accepted || search_from r false s

-- `re.Match([]byte(s))`
unfoldable pub match : Regex → String → Bool
unfolding search_from
match r s = search_from r true (codes s)
