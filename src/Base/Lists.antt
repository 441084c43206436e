-- ===== src/Base/Lists.antt =====
-- Lists as Go slices: `slices.Contains`, loops that stop at the first hit, and lengths that
-- `omega` reads.
use Prim.Native.Nat.{ℕ, suc}
use Prim.Native.String.{String}
use mathlib.Core.Path.{◌≡◌, refl}
use mathlib.Core.Logic.{◌↔◌, ◌⊎◌, inl, inr}
use mathlib.Core.Bool.{Bool, true, false, ◌||◌}
use mathlib.Core.List.{List, [], ◌∷◌}
use text.Mathlib.Text.{◌==◌}
use text.Mathlib.TextEquality.{eq_iff}
use managed_cluster_validati.Base.Tests.{Bool-cases}

module _ {ℓ} {A : Type ℓ} where
  abbrev pub length : List A → ℕ
  length [] = 0
  length (x ∷ xs) = suc (length xs)

  -- `for _, x := range xs { if test(x) { return true } }; return false`
  unfoldable pub any : (A → Bool) → List A → Bool
  any test [] = false
  any test (x ∷ xs) = test x || any test xs

pub or-true : (b : Bool) → (b || true) ≡ true
or-true true = refl
or-true false = refl

-- `slices.Contains`, on strings.
unfoldable pub contains : List String → String → Bool
contains [] v = false
contains (x ∷ xs) v = v == x || contains xs v

-- What holds of some element or of all, by recursion, so that the tactics read it.
module _ {ℓ} {A : Type ℓ} where
  abbrev pub Any : (A → Type 0) → List A → Type 0
  Any P [] = ⊥
  Any P (x ∷ xs) = P x ⊎ Any P xs

  abbrev pub All : (A → Type 0) → List A → Type 0
  All P [] = Unit
  All P (x ∷ xs) = P x × All P xs

  pub any_sound :
      (test : A → Bool) {P : A → Type 0}
      → ((x : A) → test x ≡ true → P x)
      → (xs : List A) → any test xs ≡ true
      → Any P xs
  unfolding any
  any_sound test h [] e = cc
  any_sound test h (x ∷ xs) e = elim (Bool-cases (test x)) [
    | inl yes_x ↦ inl (h x yes_x)
    | inr no_x ↦ inr (any_sound test h xs (rw no_x at e))
  ]

  pub any_complete :
      (test : A → Bool) {P : A → Type 0}
      → ((x : A) → P x → test x ≡ true)
      → (xs : List A) → Any P xs
      → any test xs ≡ true
  unfolding any
  any_complete test h [] m = absurd m
  any_complete test h (x ∷ xs) (inl p) = rw (h x p)
  any_complete test h (x ∷ xs) (inr m) = rw (any_complete test h xs m) (or-true (test x))

  -- The loop stops with `true` exactly when the test holds of some element.
  pub any_iff :
      (test : A → Bool) {P : A → Type 0}
      → ((x : A) → (test x ≡ true) ↔ P x)
      → (xs : List A) → (any test xs ≡ true) ↔ Any P xs
  any_iff test h xs = (any_sound test (λ x. (h x).0) xs, any_complete test (λ x. (h x).1) xs)

contains-eq-any : (xs : List String) (v : String) → contains xs v ≡ any (λ x. v == x) xs
unfolding contains any
contains-eq-any [] v = refl
contains-eq-any (x ∷ xs) v = rw (contains-eq-any xs v)

-- The text is one of the list.
unfoldable pub Member : String → List String → Type 0
Member v xs = Any (λ x. v ≡ x) xs

-- The loop `for _, x := range xs { if v == x { return true } }`, likewise.
pub any-eq_iff : (xs : List String) (v : String) → (any (λ x. v == x) xs ≡ true) ↔ Member v xs
unfolding Member
any-eq_iff xs v = any_iff (λ x. v == x) (λ x. eq_iff v x) xs

pub contains_iff : (xs : List String) (v : String) → (contains xs v ≡ true) ↔ Member v xs
unfolding Member
contains_iff xs v = rw (contains-eq-any xs v) (any_iff (λ x. v == x) (λ x. eq_iff v x) xs)
