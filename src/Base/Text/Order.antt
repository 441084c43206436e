-- ===== src/Base/Text/Order.antt =====
-- The order of strings by their characters, and `sort.Strings`.
use Prim.Native.Char.{code}
use Prim.Native.String.{String}
use mathlib.Core.Path.{◌≡◌, refl, sym, ap, ◌∙◌}
use mathlib.Core.Logic.{◌⊎◌, inl, inr}
use mathlib.Core.Bool.{Bool, true, false, ◌&&◌, ◌||◌}
use mathlib.Core.List.{List, [], ◌∷◌, Permᴰ}
use mathlib.Core.List.Permᴰ as Permᴰ
use native.Mathlib.Omega.{arith}
use text.Mathlib.TextEquality.{Char-path}
use managed_cluster_validati.Base.Tests.{nat_eq, ltb, if◌then◌else◌, Bool-cases}

-- `s < t`
unfoldable pub less_text : String → String → Bool
less_text String.[] String.[] = false
less_text String.[] (String.◌∷◌ d t) = true
less_text (String.◌∷◌ c s) String.[] = false
less_text (String.◌∷◌ c s) (String.◌∷◌ d t) =
    ltb (code c) (code d) || (nat_eq (code c) (code d) && less_text s t)

less_text_trans :
    (s t u : String) → less_text s t ≡ true → less_text t u ≡ true → less_text s u ≡ true
unfolding less_text
less_text_trans String.[] String.[] u h k = cc
less_text_trans String.[] (String.◌∷◌ d t) String.[] h k = k
less_text_trans String.[] (String.◌∷◌ d t) (String.◌∷◌ e u) h k = refl
less_text_trans (String.◌∷◌ c s) String.[] u h k = cc
less_text_trans (String.◌∷◌ c s) (String.◌∷◌ d t) String.[] h k = cc
less_text_trans (String.◌∷◌ c s) (String.◌∷◌ d t) (String.◌∷◌ e u) h k =
    ground (arith, less_text_trans s t u)

less_text-cases : (s t : String) → (less_text s t ≡ true) ⊎ (s ≡ t) ⊎ (less_text t s ≡ true)
unfolding less_text
less_text-cases String.[] String.[] = inr (inl refl)
less_text-cases String.[] (String.◌∷◌ d t) = inl refl
less_text-cases (String.◌∷◌ c s) String.[] = inr (inr refl)
less_text-cases (String.◌∷◌ c s) (String.◌∷◌ d t) = elim (Bool-cases (nat_eq (code c) (code d))) [
  | inl same ↦
      let c_is_d : c ≡ d = Char-path c d (ground arith) in
      elim (less_text-cases s t) [
        | inl less ↦ inl (ground arith)
        | inr (inl equal) ↦ inr (inl (rw (c_is_d, equal) refl))
        | inr (inr more) ↦ inr (inr (ground arith))
      ]
  | inr other ↦ ground arith
]

less_text_irrefl : (s : String) → less_text s s ≡ false
unfolding less_text
less_text_irrefl String.[] = refl
less_text_irrefl (String.◌∷◌ c s) = ground (arith, less_text_irrefl s)

unfoldable pub put_text : String → List String → List String
put_text s [] = s ∷ []
put_text s (t ∷ ts) = let rest = put_text s ts in if less_text t s then t ∷ rest else s ∷ t ∷ ts

-- `sort.Strings`
unfoldable pub sort_strings : List String → List String
unfolding put_text
sort_strings [] = []
sort_strings (s ∷ ss) = put_text s (sort_strings ss)

-- One of two texts is smaller and the other is not, or they are equal.
less_text-order :
    (s t : String)
    → ((less_text s t ≡ true) × (less_text t s ≡ false))
      ⊎ (s ≡ t)
      ⊎ ((less_text t s ≡ true) × (less_text s t ≡ false))
less_text-order s t = ground (
  arith,
  less_text-cases s t,
  less_text_trans s t s,
  less_text_trans t s t,
  less_text_irrefl s,
  less_text_irrefl t,
)

-- What is not above a smaller text is smaller too.
less_text-below :
    (s t u : String) → less_text u s ≡ true → less_text u t ≡ false → less_text t s ≡ true
less_text-below s t u h k = elim (less_text-order u t) [
  | inl (above, _) ↦ cc
  | inr (inl same) ↦ rw (sym same) h
  | inr (inr (below, _)) ↦ less_text_trans t u s below h
]

less_text-asym : (s t : String) → less_text s t ≡ true → less_text t s ≡ false
less_text-asym s t h = elim (less_text-order s t) [
  | inl (_, more) ↦ more
  | inr (inl same) ↦ rw same (less_text_irrefl t)
  | inr (inr (_, less)) ↦ cc
]

put_two :
    (s t : String) (us : List String)
    → (if less_text t s then t ∷ s ∷ us else s ∷ t ∷ us)
      ≡ (if less_text s t then s ∷ t ∷ us else t ∷ s ∷ us)
put_two s t us = elim (less_text-order s t) [
  | inl (less, more) ↦ rw (less, more) refl
  | inr (inl same) ↦ rw same refl
  | inr (inr (less, more)) ↦ rw (less, more) refl
]

put_text_comm :
    (s t : String) (us : List String) → put_text s (put_text t us) ≡ put_text t (put_text s us)
unfolding put_text
put_text_comm s t [] = put_two s t []
put_text_comm s t (u ∷ us) = elim (Bool-cases (less_text u s)) [
  | inl above_s ↦ elim (Bool-cases (less_text u t)) [
    | inl above_t ↦ rw (above_s, above_t) (rw above_s (ap (λ r. u ∷ r) (put_text_comm s t us)))
    | inr below_t ↦
        rw (above_s, below_t) (rw (less_text-below s t u above_s below_t) (rw above_s refl))
  ]
  | inr below_s ↦ elim (Bool-cases (less_text u t)) [
    | inl above_t ↦ rw (below_s, above_t) (rw (below_s, less_text-below t s u above_t below_s) refl)
    | inr below_t ↦ rw (below_s, below_t) (rw below_s (put_two s t (u ∷ us)))
  ]
]

pub sort_strings-perm : {ss ts : List String} → Permᴰ ss ts → sort_strings ss ≡ sort_strings ts
unfolding sort_strings
sort_strings-perm Permᴰ.nil = refl
sort_strings-perm (Permᴰ.cons e p) = rw (e, sort_strings-perm p) refl
sort_strings-perm (Permᴰ.swap {a = a} {b = b} {l = l} e f) =
    rw (sym e, sym f) (put_text_comm a b (sort_strings l))
sort_strings-perm (Permᴰ.trans p q) = sort_strings-perm p ∙ sort_strings-perm q

put_text-Permᴰ : (s : String) (ts : List String) → Permᴰ (put_text s ts) (s ∷ ts)
unfolding put_text
put_text-Permᴰ s [] = Permᴰ.refl (s ∷ [])
put_text-Permᴰ s (t ∷ ts) = elim (Bool-cases (less_text t s)) [
  | inl below ↦
      rw below (Permᴰ.trans (Permᴰ.cons refl (put_text-Permᴰ s ts)) (Permᴰ.swap refl refl))
  | inr above ↦ rw above (Permᴰ.refl (s ∷ t ∷ ts))
]

pub sort_strings-Permᴰ : (ss : List String) → Permᴰ (sort_strings ss) ss
unfolding sort_strings
sort_strings-Permᴰ [] = Permᴰ.nil
sort_strings-Permᴰ (s ∷ ss) =
    Permᴰ.trans (put_text-Permᴰ s (sort_strings ss)) (Permᴰ.cons refl (sort_strings-Permᴰ ss))

-- No text is followed by a smaller one.
abbrev pub IsSorted : List String → Type 0
IsSorted [] = Unit
IsSorted (s ∷ []) = Unit
IsSorted (s ∷ t ∷ ts) = (less_text t s ≡ false) × IsSorted (t ∷ ts)

put_text-IsSorted : (s : String) (ts : List String) → IsSorted ts → IsSorted (put_text s ts)
unfolding put_text
put_text-IsSorted s [] h = tt
put_text-IsSorted s (t ∷ []) h = elim (Bool-cases (less_text t s)) [
  | inl below ↦ rw below (less_text-asym t s below, tt)
  | inr above ↦ rw above (above, tt)
]
put_text-IsSorted s (t ∷ u ∷ ts) (ordered, h) =
    let ih = put_text-IsSorted s (u ∷ ts) h in
    elim (Bool-cases (less_text t s)) [
      | inl below ↦ elim (Bool-cases (less_text u s)) [
        | inl further ↦ rw (below, further) (ordered, rw further at ih)
        | inr here ↦ rw (below, here) (less_text-asym t s below, (here, h))
      ]
      | inr above ↦ rw above (above, (ordered, h))
    ]

pub sort_strings-IsSorted : (ss : List String) → IsSorted (sort_strings ss)
unfolding sort_strings
sort_strings-IsSorted [] = tt
sort_strings-IsSorted (s ∷ ss) = put_text-IsSorted s (sort_strings ss) (sort_strings-IsSorted ss)
