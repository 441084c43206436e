-- ===== src/SyncSet/Equality.antt =====
-- reflect.DeepEqual on label selectors, which pkg/syncset calls: an implementation of its interface.
use managed_cluster_validati.Base.{
  String, ◌≡◌, refl, ap, ◌↔◌, Bool, true, false, ◌&&◌, List, [], ◌∷◌, ◌==◌, eq_iff, arith,
}
use managed_cluster_validati.Webhook.{LabelSelector, Requirement}
use managed_cluster_validati.SyncSet.{DeepEqual}

module _ {A : Type 0} (same : A → A → Bool) where
  unfoldable list_equal : List A → List A → Bool
  list_equal [] [] = true
  list_equal [] (y ∷ ys) = false
  list_equal (x ∷ xs) [] = false
  list_equal (x ∷ xs) (y ∷ ys) = same x y && list_equal xs ys

  list_equal_iff :
      ((a b : A) → (same a b ≡ true) ↔ (a ≡ b))
      → (xs ys : List A) → (list_equal xs ys ≡ true) ↔ (xs ≡ ys)
  unfolding list_equal
  list_equal_iff h [] [] = (λ _. refl, λ _. refl)
  list_equal_iff h [] (y ∷ ys) = (λ e. cc, λ e. cc)
  list_equal_iff h (x ∷ xs) [] = (λ e. cc, λ e. cc)
  list_equal_iff h (x ∷ xs) (y ∷ ys) =
      let heads = h x y in
      let tails = list_equal_iff h xs ys in
      (
        λ e.
            let a : x ≡ y = ground (arith, heads) in
            let b : xs ≡ ys = ground (arith, tails) in rw (a, b) refl,
        λ e. let a : x ≡ y = cc in let b : xs ≡ ys = cc in ground (arith, heads.1 a, tails.1 b),
      )

abbrev same_entry : String × String → String × String → Bool
same_entry a b = a.0 == b.0 && a.1 == b.1

same_entry_iff : (a b : String × String) → (same_entry a b ≡ true) ↔ (a ≡ b)
same_entry_iff (a, b) (c, d) = (
  λ e.
      let p : a ≡ c = ground (arith, eq_iff a c) in
      let q : b ≡ d = ground (arith, eq_iff b d) in rw (p, q) refl,
  λ e.
      let p : a ≡ c = ap (λ x. x.0) e in
      let q : b ≡ d = ap (λ x. x.1) e in ground (arith, (eq_iff a c).1 p, (eq_iff b d).1 q),
)

unfoldable same_requirement : Requirement → Requirement → Bool
unfolding list_equal
same_requirement a b =
    a.key == b.key && (a.operator == b.operator && list_equal (λ s t. s == t) a.values b.values)

requirement_path :
    {k k' o o' : String} {v v' : List String}
    → k ≡ k'
    → o ≡ o'
    → v ≡ v'
    → ◌≡◌ {A = Requirement}
        (record { key = k; operator = o; values = v })
        (record { key = k'; operator = o'; values = v' })
requirement_path p q r = rw (p, q, r) refl

same_requirement_iff : (a b : Requirement) → (same_requirement a b ≡ true) ↔ (a ≡ b)
unfolding same_requirement
same_requirement_iff a b =
    let values = list_equal_iff (λ s t. s == t) eq_iff a.values b.values in
    (
      λ e.
          let p : a.key ≡ b.key = ground (arith, eq_iff a.key b.key) in
          let q : a.operator ≡ b.operator = ground (arith, eq_iff a.operator b.operator) in
          let r : a.values ≡ b.values = ground (arith, values) in requirement_path p q r,
      λ e. rw e (
          ground (
            arith,
            (eq_iff b.key b.key).1 refl,
            (eq_iff b.operator b.operator).1 refl,
            (list_equal_iff (λ s t. s == t) eq_iff b.values b.values).1 refl,
          )),
    )

unfoldable pub same_selector : LabelSelector → LabelSelector → Bool
unfolding list_equal same_requirement
same_selector a b =
    list_equal same_entry a.match_labels b.match_labels
    && list_equal same_requirement a.match_expressions b.match_expressions

selector_path :
    {l l' : List (String × String)} {m m' : List Requirement}
    → l ≡ l'
    → m ≡ m'
    → ◌≡◌ {A = LabelSelector}
        (record { match_labels = l; match_expressions = m })
        (record { match_labels = l'; match_expressions = m' })
selector_path p q = rw (p, q) refl

pub same_selector_iff : (a b : LabelSelector) → (same_selector a b ≡ true) ↔ (a ≡ b)
unfolding same_selector
same_selector_iff a b =
    let labels = list_equal_iff same_entry same_entry_iff a.match_labels b.match_labels in
    let expressions =
      list_equal_iff same_requirement same_requirement_iff a.match_expressions
        b.match_expressions in
    (
      λ e.
          let p : a.match_labels ≡ b.match_labels = ground (arith, labels) in
          let q : a.match_expressions ≡ b.match_expressions = ground (arith, expressions) in
          selector_path p q,
      λ e. rw e (
          ground (
            arith,
            (list_equal_iff same_entry same_entry_iff b.match_labels b.match_labels).1 refl,
            (list_equal_iff same_requirement same_requirement_iff b.match_expressions
                  b.match_expressions).1
                refl,
          )),
    )

abbrev pub equal_selectors : DeepEqual LabelSelector
equal_selectors = record { deep_equal = same_selector; deep_equal_iff = same_selector_iff }
