-- ===== src/Regex/Decides.antt =====
-- The search decides whether some part of the text matches.
use Prim.Native.Nat.{ℕ, zero, suc, ◌≤◌}
use Prim.Native.String.{String}
use mathlib.Core.Path.{◌≡◌, refl}
use mathlib.Core.Logic.{◌↔◌, inl, inr}
use mathlib.Core.Bool.{Bool, true, false, ◌&&◌}
use mathlib.Core.List.{List, [], ◌∷◌}
use native.Mathlib.Omega.{arith}
use managed_cluster_validati.Base.{Bool-cases, any_iff, leb, length, ltb, or-true}
use managed_cluster_validati.Base.Text.{codes}
use managed_cluster_validati.Regex.{
  Regex, empty, begin, end, any_char, literal, class, seq, alt, star, Continue, in_class, repeat,
  run, accepted, search_from, match,
}
use managed_cluster_validati.Regex.Semantics.{InClass, Run, Star, stop, more, Run-Advances, Found}

in_class_iff : (spans : List (ℕ × ℕ)) (c : ℕ) → (in_class spans c ≡ true) ↔ InClass spans c
unfolding in_class
in_class_iff spans c =
    any_iff (λ span. leb span.0 c && leb c span.1) (λ span. (ground arith, ground arith)) spans

-- The run `r` gets somewhere from which `k` goes on.
abbrev Reaches : Regex → Bool → List ℕ → Continue → Type 0
Reaches r b s k = (b' : Bool) × (s' : List ℕ) × Run r b s b' s' × (k b' s' ≡ true)

module _ (r : Regex)
    (sound : (b : Bool) (s : List ℕ) (k : Continue) → run r b s k ≡ true → Reaches r b s k) where
  repeat_sound :
      (n : ℕ) (b : Bool) (s : List ℕ) (k : Continue)
      → repeat (run r) n b s k ≡ true
      → Reaches (star r) b s k
  unfolding repeat
  repeat_sound zero b s k h = (b, s, stop, h)
  repeat_sound (suc n) b s k h = elim (Bool-cases (k b s)) [
    | inl here ↦ (b, s, stop, here)
    | inr on ↦
        let (b₁, s₁, m, e) =
          sound b s (λ b' s'. ltb (length s') (length s) && repeat (run r) n b' s' k)
            (rw on at h) in
        let (b', s', rest, done) = repeat_sound n b₁ s₁ k (ground (arith)) in
        (b', s', more m rest, done)
  ]

pub run_sound :
    (r : Regex) (b : Bool) (s : List ℕ) (k : Continue) → run r b s k ≡ true → Reaches r b s k
unfolding run
run_sound empty b s k h = (b, s, (refl, refl), h)
run_sound begin true s k h = (true, s, (refl, refl, refl), h)
run_sound begin false s k h = cc
run_sound end b [] k h = (b, [], (refl, refl, refl), h)
run_sound end b (c ∷ s) k h = cc
run_sound any_char b [] k h = cc
run_sound any_char b (c ∷ s) k h = (false, s, (c, refl, ground arith, refl), ground arith)
run_sound (literal x) b [] k h = cc
run_sound (literal x) b (c ∷ s) k h = (false, s, (c, refl, ground arith, refl), ground arith)
run_sound (class spans) b [] k h = cc
run_sound (class spans) b (c ∷ s) k h =
    (false, s, (c, refl, (in_class_iff spans c).0 (ground arith), refl), ground arith)
run_sound (seq r q) b s k h =
    let (b₁, s₁, m, e) = run_sound r b s (λ b' s'. run q b' s' k) h in
    let (b', s', n, done) = run_sound q b₁ s₁ k e in (b', s', (b₁, s₁, m, n), done)
run_sound (alt r q) b s k h = elim (Bool-cases (run r b s k)) [
  | inl left ↦ let (b', s', m, done) = run_sound r b s k left in (b', s', inl m, done)
  | inr other ↦ let (b', s', m, done) = run_sound q b s k (rw other at h) in (b', s', inr m, done)
]
run_sound (star r) b s k h = repeat_sound r (run_sound r) (length s) b s k h

module _ (r : Regex)
    (complete : (b : Bool) (s : List ℕ) (b' : Bool) (s' : List ℕ) (k : Continue)
      → Run r b s b' s'
      → k b' s' ≡ true
      → run r b s k ≡ true) where
  repeat_complete :
      {b' : Bool} {s' : List ℕ} {b : Bool} {s : List ℕ} (n : ℕ) (k : Continue)
      → Star (Run r) b' s' b s
      → length s ≤ n
      → k b' s' ≡ true
      → repeat (run r) n b s k ≡ true
  unfolding repeat
  repeat_complete zero k stop fits e = e
  repeat_complete (suc n) k stop fits e = rw e refl
  repeat_complete {b'} {s'} {b} {s} zero k (more {b₁ = b₁} {s₁ = s₁} m rest) fits e =
      elim (Run-Advances r b s b₁ s₁ m) [
        | inl (p, q) ↦
            rw (← p, ← q)
              (repeat_complete {b' = b'} {s' = s'} {b = b₁} {s = s₁} zero k rest (rw q fits) e)
        | inr shorter ↦ absurd (omega arith)
      ]
  repeat_complete {b'} {s'} {b} {s} (suc n) k (more {b₁ = b₁} {s₁ = s₁} m rest) fits e =
      elim (Run-Advances r b s b₁ s₁ m) [
        | inl (p, q) ↦
            rw (← p, ← q)
              (repeat_complete {b' = b'} {s' = s'} {b = b₁} {s = s₁} (suc n) k rest (rw q fits) e)
        | inr shorter ↦
            let later : repeat (run r) n b₁ s₁ k ≡ true =
              repeat_complete n k rest (omega arith) e in
            let round =
              complete b s b₁ s₁ (λ b' s'. ltb (length s') (length s) && repeat (run r) n b' s' k) m
                (rw later (ground arith)) in
            rw round (or-true (k b s))
      ]

pub run_complete :
    (r : Regex) (b : Bool) (s : List ℕ) (b' : Bool) (s' : List ℕ) (k : Continue)
    → Run r b s b' s'
    → k b' s' ≡ true
    → run r b s k ≡ true
unfolding run
run_complete empty b s b' s' k (p, q) e = rw (p, q) at e
run_complete begin b s b' s' k (at, p, q) e = rw at (rw (p, q, at) at e)
run_complete end b s b' s' k (at, p, q) e = rw at (rw (p, q, at) at e)
run_complete any_char b s b' s' k (c, p, q, t) e = rw p (ground arith)
run_complete (literal x) b s b' s' k (c, p, q, t) e = rw p (ground arith)
run_complete (class spans) b s b' s' k (c, p, q, t) e =
    rw p (ground (arith, (in_class_iff spans c).1 q))
run_complete (seq r q) b s b' s' k (b₁, s₁, m, n) e =
    run_complete r b s b₁ s₁ (λ b' s'. run q b' s' k) m (run_complete q b₁ s₁ b' s' k n e)
run_complete (alt r q) b s b' s' k (inl m) e = rw (run_complete r b s b' s' k m e) refl
run_complete (alt r q) b s b' s' k (inr m) e =
    rw (run_complete q b s b' s' k m e) (or-true (run r b s k))
run_complete (star r) b s b' s' k m e =
    repeat_complete r (run_complete r) (length s) k m (omega arith) e

search_from_sound : (r : Regex) (b : Bool) (s : List ℕ) → search_from r b s ≡ true → Found r b s
unfolding search_from
search_from_sound r b [] h = let (b', s', m, _) = run_sound r b [] accepted h in (b', s', m)
search_from_sound r b (c ∷ s) h = elim (Bool-cases (run r b (c ∷ s) accepted)) [
  | inl here ↦ let (b', s', m, _) = run_sound r b (c ∷ s) accepted here in inl (b', s', m)
  | inr later ↦ inr (search_from_sound r false s (rw later at h))
]

search_from_complete : (r : Regex) (b : Bool) (s : List ℕ) → Found r b s → search_from r b s ≡ true
unfolding search_from
search_from_complete r b [] (b', s', m) = run_complete r b [] b' s' accepted m refl
search_from_complete r b (c ∷ s) (inl (b', s', m)) =
    rw (run_complete r b (c ∷ s) b' s' accepted m refl)
search_from_complete r b (c ∷ s) (inr m) =
    rw (search_from_complete r false s m) (or-true (run r b (c ∷ s) accepted))

-- The search succeeds exactly when some part of the text matches.
pub match_iff : (r : Regex) (s : String) → (match r s ≡ true) ↔ Found r true (codes s)
unfolding match
match_iff r s = (search_from_sound r true (codes s), search_from_complete r true (codes s))
