-- ===== src/Regex/Semantics.antt =====
-- What it means for a regular expression to match, with no order of search in it.
use Prim.Native.Nat.{ℕ, ◌≤◌, ◌<◌}
use mathlib.Core.Path.{◌≡◌, refl}
use mathlib.Core.Logic.{◌≢◌, ◌⊎◌, inl, inr}
use mathlib.Core.Bool.{Bool, true, false}
use mathlib.Core.List.{List, [], ◌∷◌}
use native.Mathlib.Omega.{arith}
use managed_cluster_validati.Base.{Any, length}
use managed_cluster_validati.Regex.{
  Regex, empty, begin, end, any_char, literal, class, seq, alt, star,
}

-- A relation between a position and a later one, each as whether it is the start of the text and
-- what is left of the text.
abbrev Positions : Type 1
Positions = Bool → List ℕ → Bool → List ℕ → Type 0

-- Rounds, from the position given last.
pub data Star (R : Positions) (b' : Bool) (s' : List ℕ) : Bool → List ℕ → Type 0 where
  stop : Star R b' s' b' s'
  more : {b b₁ : Bool} {s s₁ : List ℕ} → R b s b₁ s₁ → Star R b' s' b₁ s₁ → Star R b' s' b s

abbrev pub InClass : List (ℕ × ℕ) → ℕ → Type 0
InClass spans c = Any (λ span. (span.0 ≤ c) × (c ≤ span.1)) spans

abbrev pub Run : Regex → Bool → List ℕ → Bool → List ℕ → Type 0
Run empty b s b' s' = (b' ≡ b) × (s' ≡ s)
Run begin b s b' s' = (b ≡ true) × (b' ≡ b) × (s' ≡ s)
Run end b s b' s' = (s ≡ []) × (b' ≡ b) × (s' ≡ s)
Run any_char b s b' s' = (c : ℕ) × (s ≡ c ∷ s') × (c ≢ 10) × (b' ≡ false)
Run (literal x) b s b' s' = (c : ℕ) × (s ≡ c ∷ s') × (c ≡ x) × (b' ≡ false)
Run (class spans) b s b' s' = (c : ℕ) × (s ≡ c ∷ s') × InClass spans c × (b' ≡ false)
Run (seq r q) b s b' s' = (b₁ : Bool) × (s₁ : List ℕ) × Run r b s b₁ s₁ × Run q b₁ s₁ b' s'
Run (alt r q) b s b' s' = Run r b s b' s' ⊎ Run q b s b' s'
Run (star r) b s b' s' = Star (Run r) b' s' b s

-- A run stays where it is or uses up some text.
abbrev pub Advances : Bool → List ℕ → Bool → List ℕ → Type 0
Advances b s b' s' = ((b' ≡ b) × (s' ≡ s)) ⊎ (length s' < length s)

Advances-trans :
    {b b₁ b' : Bool} {s s₁ s' : List ℕ}
    → Advances b s b₁ s₁
    → Advances b₁ s₁ b' s'
    → Advances b s b' s'
Advances-trans h k = ground arith

module _ {R : Positions}
    (step : (b : Bool) (s : List ℕ) (b' : Bool) (s' : List ℕ)
      → R b s b' s'
      → Advances b s b' s') where
  Star-Advances :
      {b' : Bool} {s' : List ℕ} {b : Bool} {s : List ℕ} → Star R b' s' b s → Advances b s b' s'
  Star-Advances stop = inl (refl, refl)
  Star-Advances (more m rest) = Advances-trans (step _ _ _ _ m) (Star-Advances rest)

pub Run-Advances :
    (r : Regex) (b : Bool) (s : List ℕ) (b' : Bool) (s' : List ℕ)
    → Run r b s b' s'
    → Advances b s b' s'
Run-Advances empty b s b' s' h = inl h
Run-Advances begin b s b' s' (_, h, k) = inl (h, k)
Run-Advances end b s b' s' (_, h, k) = inl (h, k)
Run-Advances any_char b s b' s' (c, e, _, _) = inr (rw e (omega arith))
Run-Advances (literal x) b s b' s' (c, e, _, _) = inr (rw e (omega arith))
Run-Advances (class spans) b s b' s' (c, e, _, _) = inr (rw e (omega arith))
Run-Advances (seq r q) b s b' s' (b₁, s₁, h, k) =
    Advances-trans (Run-Advances r b s b₁ s₁ h) (Run-Advances q b₁ s₁ b' s' k)
Run-Advances (alt r q) b s b' s' (inl h) = Run-Advances r b s b' s' h
Run-Advances (alt r q) b s b' s' (inr h) = Run-Advances q b s b' s' h
Run-Advances (star r) b s b' s' h = Star-Advances (Run-Advances r) h

-- Some part of the text matches.
abbrev pub Found : Regex → Bool → List ℕ → Type 0
Found r b [] = (b' : Bool) × (s' : List ℕ) × Run r b [] b' s'
Found r b (c ∷ s) = ((b' : Bool) × (s' : List ℕ) × Run r b (c ∷ s) b' s') ⊎ Found r false s
