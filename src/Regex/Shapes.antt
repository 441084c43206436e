-- ===== src/Regex/Shapes.antt =====
-- The two shapes of pattern that name a namespace: `^name$` and `^prefix.*`.
use Prim.Native.Nat.{ℕ}
use Prim.Native.String.{String}
use mathlib.Core.Path.{◌≡◌, refl, ap}
use mathlib.Core.Logic.{◌↔◌}
use mathlib.Core.Bool.{Bool, true, false, ◌&&◌, ◌||◌}
use mathlib.Core.List.{List, [], ◌∷◌}
use mathlib.Core.Option.{Option, none, some}
use native.Mathlib.Omega.{arith}
use text.Mathlib.Text.{◌==◌}
use text.Mathlib.TextEquality.{Char-path, eq_iff}
use managed_cluster_validati.Base.Text.{codes, has_prefix, has_substring, strip_prefix}
use managed_cluster_validati.Regex.{
  Regex, begin, end, seq, alt, star, any_char, chars, exactly, starting, Continue, accepted, repeat,
  run, search_from, match,
}

search_from-begin :
    (r : Regex) (b : Bool) (s : List ℕ) → search_from (seq begin r) b s ≡ (b && run r b s accepted)
unfolding search_from
search_from-begin r b [] = refl
search_from-begin r b (c ∷ s) = rw (search_from-begin r false s) (ground arith)

-- A pattern that starts with `^` is tried at the start of the text only.
pub match-begin : (r : Regex) (s : String) → match (seq begin r) s ≡ run r true (codes s) accepted
unfolding match
match-begin r s = search_from-begin r true (codes s)

run_exact_sound :
    (name s : String) (b : Bool)
    → run (chars name) b (codes s) (λ b' s'. run end b' s' accepted) ≡ true
    → s ≡ name
unfolding run
run_exact_sound String.[] String.[] b h = refl
run_exact_sound String.[] (String.◌∷◌ c s) b h = cc
run_exact_sound (String.◌∷◌ d name) String.[] b h = cc
run_exact_sound (String.◌∷◌ d name) (String.◌∷◌ c s) b h =
    let same : c ≡ d = Char-path c d (ground arith) in
    let rest : s ≡ name = run_exact_sound name s false (ground arith) in rw (same, rest)

run_exact_complete :
    (name : String) (b : Bool)
    → run (chars name) b (codes name) (λ b' s'. run end b' s' accepted) ≡ true
unfolding run
run_exact_complete String.[] b = refl
run_exact_complete (String.◌∷◌ d name) b = ground (arith, run_exact_complete name false)

-- `^name$` matches the name and nothing else.
pub match-exactly : (name s : String) → (match (exactly name) s ≡ true) ↔ (s ≡ name)
unfolding run
match-exactly name s =
    rw (match-begin (seq (chars name) end) s)
      (run_exact_sound name s true, λ e. rw e (run_exact_complete name true))

repeat-accepted :
    (step : Bool → List ℕ → Continue → Bool) (n : ℕ) (b : Bool) (s : List ℕ)
    → repeat step n b s accepted ≡ true
unfolding repeat
repeat-accepted step Prim.Native.Nat.zero b s = refl
repeat-accepted step (Prim.Native.Nat.suc n) b s = refl

pub run_prefix :
    (p s : String) (b : Bool)
    → run (chars p) b (codes s) (λ b' s'. run (star any_char) b' s' accepted) ≡ has_prefix s p
unfolding run has_prefix
run_prefix String.[] s b = repeat-accepted (run any_char) _ b (codes s)
run_prefix (String.◌∷◌ d p) String.[] b = refl
run_prefix (String.◌∷◌ d p) (String.◌∷◌ c s) b = rw (run_prefix p s false)

-- A run of literals followed by what does not ask whether it stands at the start of the text.
abbrev pub after : (List ℕ → Bool) → Option String → Bool
after k none = false
after k (some rest) = k (codes rest)

pub run-chars :
    (p s : String) (b : Bool) (k : List ℕ → Bool)
    → run (chars p) b (codes s) (λ _ s'. k s') ≡ after k (strip_prefix s p)
unfolding run strip_prefix
run-chars String.[] s b k = refl
run-chars (String.◌∷◌ d p) String.[] b k = refl
run-chars (String.◌∷◌ d p) (String.◌∷◌ c s) b k = rw (run-chars p s false k) (ground arith)

pub run_literals : (p s : String) (b : Bool) → run (chars p) b (codes s) accepted ≡ has_prefix s p
unfolding run has_prefix
run_literals String.[] s b = refl
run_literals (String.◌∷◌ d p) String.[] b = refl
run_literals (String.◌∷◌ d p) (String.◌∷◌ c s) b = rw (run_literals p s false)

-- `^prefix.*` matches the texts with that prefix.
pub match-starting : (p s : String) → match (starting p) s ≡ has_prefix s p
unfolding run
match-starting p s = rw (match-begin (seq (chars p) (star any_char)) s) (run_prefix p s true)

or_interchange : (a b c d : Bool) → ((a || b) || (c || d)) ≡ ((a || c) || (b || d))
or_interchange a b c d = ground arith

search_from-alt :
    (r q : Regex) (b : Bool) (s : List ℕ)
    → search_from (alt r q) b s ≡ (search_from r b s || search_from q b s)
unfolding search_from
search_from-alt r q b [] = refl
search_from-alt r q b (c ∷ s) = rw (search_from-alt r q false s) (
    or_interchange (run r b (c ∷ s) accepted) (run q b (c ∷ s) accepted) (search_from r false s)
      (search_from q false s))

-- An alternative is found where either side is.
pub match-alt : (r q : Regex) (s : String) → match (alt r q) s ≡ (match r s || match q s)
unfolding match
match-alt r q s = search_from-alt r q true (codes s)

search_from-chars :
    (p s : String) (b : Bool) → search_from (chars p) b (codes s) ≡ has_substring s p
unfolding search_from has_substring
search_from-chars p String.[] b = run_literals p "" b
search_from-chars p (String.◌∷◌ c s) b =
    rw (search_from-chars p s false)
      (ap (λ h. h || has_substring s p) (run_literals p (String.◌∷◌ c s) b))

-- Plain characters are found anywhere in the text.
pub match-chars : (p s : String) → match (chars p) s ≡ has_substring s p
unfolding match
match-chars p s = search_from-chars p s true

-- `^name$` as a test.
pub match-exactly_eq : (name s : String) → match (exactly name) s ≡ (s == name)
match-exactly_eq name s = ground (arith, match-exactly name s, eq_iff s name)
