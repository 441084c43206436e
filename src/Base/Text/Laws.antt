-- ===== src/Base/Text/Laws.antt =====
-- Prefixes, and splitting against joining.
use Prim.Native.Nat.{ℕ}
use Prim.Native.Char.{Char, code}
use Prim.Native.String
use Prim.Native.String.{String}
use mathlib.Core.Path.{◌≡◌, refl, ap, ◌∙◌}
use mathlib.Core.Logic.{◌≢◌, inl, inr}
use mathlib.Core.Bool.{true, false}
use mathlib.Core.List.{List, [], ◌∷◌}
use native.Mathlib.Omega.{arith}
use text.Mathlib.TextLemmas.{nil-append, cons-append}
use managed_cluster_validati.Base.Tests.{nat_eq, Bool-cases}
use managed_cluster_validati.Base.Lists.{All}
use managed_cluster_validati.Base.Text.{has_prefix, split, join, put_first}

-- No character of the text is the separator.
abbrev pub Lacks : ℕ → String → Type 0
Lacks sep String.[] = Unit
Lacks sep (String.◌∷◌ c s) = (code c ≢ sep) × Lacks sep s

put_first-Lacks :
    (sep : ℕ) (c : Char) (ts : List String)
    → code c ≢ sep
    → All (Lacks sep) ts
    → All (Lacks sep) (put_first c ts)
put_first-Lacks sep c [] h k = ((h, tt), tt)
put_first-Lacks sep c (t ∷ ts) h (k, ks) = ((h, k), ks)

-- No part of a split text holds the separator.
pub split-Lacks : (sep : ℕ) (s : String) → All (Lacks sep) (split sep s)
unfolding split
split-Lacks sep String.[] = (tt, tt)
split-Lacks sep (String.◌∷◌ c s) = elim (Bool-cases (nat_eq (code c) sep)) [
  | inl same ↦ rw same (tt, split-Lacks sep s)
  | inr other ↦ rw other (put_first-Lacks sep c (split sep s) (ground arith) (split-Lacks sep s))
]

split_of_Lacks : (sep : ℕ) (t : String) → Lacks sep t → split sep t ≡ t ∷ []
unfolding split
split_of_Lacks sep String.[] h = refl
split_of_Lacks sep (String.◌∷◌ c t) (h, k) =
    let other : nat_eq (code c) sep ≡ false = ground arith in
    rw (other, split_of_Lacks sep t k) refl

split-append :
    (sep : Char) (t rest : String)
    → Lacks (code sep) t
    → split (code sep) (String.◌++◌ t (String.◌∷◌ sep rest)) ≡ t ∷ split (code sep) rest
unfolding split
split-append sep String.[] rest h =
    let same : nat_eq (code sep) (code sep) ≡ true = ground arith in rw (nil-append, same)
split-append sep (String.◌∷◌ c t) rest (h, k) =
    let other : nat_eq (code c) (code sep) ≡ false = ground arith in
    rw (cons-append) (rw (other, split-append sep t rest k))

-- Splitting what was joined gives the parts back, if there is one and none holds the separator.
pub split-join :
    (sep : Char) (t : String) (ts : List String)
    → All (Lacks (code sep)) (t ∷ ts)
    → split (code sep) (join sep (t ∷ ts)) ≡ t ∷ ts
unfolding join
split-join sep t [] (h, _) = split_of_Lacks (code sep) t h
split-join sep t (u ∷ ts) (h, k) =
    split-append sep t (join sep (u ∷ ts)) h ∙ ap (λ r. t ∷ r) (split-join sep u ts k)

-- What has a prefix has each prefix of it.
pub has_prefix-append :
    (s p q : String) → has_prefix s (String.◌++◌ p q) ≡ true → has_prefix s p ≡ true
unfolding has_prefix
has_prefix-append s String.[] q h = refl
has_prefix-append String.[] (String.◌∷◌ d p) q h = cc (rw cons-append at h)
has_prefix-append (String.◌∷◌ c s) (String.◌∷◌ d p) q h =
    let both = rw cons-append at h in ground (arith, has_prefix-append s p q)
