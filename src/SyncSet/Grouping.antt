-- ===== src/SyncSet/Grouping.antt =====
-- What the sets rendered by pkg/syncset hold: every selector once, with the objects added under it
-- in their order.
use mathlib.Core.Bool.{true≢false}
use mathlib.Core.List.{append_assoc, append-nil}
use managed_cluster_validati.Base.{
  ℕ, suc, String, ◌≡◌, refl, sym, ◌∙◌, ap, ◌⊎◌, inl, inr, Bool, true, false, List, [], ◌∷◌, ◌++◌,
  arith, Any, if◌then◌else◌, Bool-cases,
}
use managed_cluster_validati.SyncSet.{
  DeepEqual, MapEntry, Entries, SelectorSyncSet, add, add_all, render_from,
  render_selector_sync_sets,
}

module _ {K A : Type 0} where
  abbrev HasKey : K → Entries K A → Type 0
  HasKey key entries = Any (λ entry. entry.key ≡ key) entries

  abbrev HasDistinctKeys : Entries K A → Type 0
  HasDistinctKeys [] = Unit
  HasDistinctKeys (entry ∷ entries) = (¬ HasKey entry.key entries) × HasDistinctKeys entries

  -- Some set has the selector; no selector stands on two sets.
  abbrev pub HasSelector : K → List (SelectorSyncSet K A) → Type 0
  HasSelector key sets = Any (λ s. s.cluster_deployment_selector ≡ key) sets

  abbrev pub HasDistinctSelectors : List (SelectorSyncSet K A) → Type 0
  HasDistinctSelectors [] = Unit
  HasDistinctSelectors (s ∷ sets) =
      (¬ HasSelector s.cluster_deployment_selector sets) × HasDistinctSelectors sets

  render-HasSelector :
      (i : ℕ) (labels : List (String × String)) (entries : Entries K A) (key : K)
      → HasSelector key (render_from i labels entries)
      → HasKey key entries
  unfolding render_from
  render-HasSelector i labels [] key m = m
  render-HasSelector i labels (entry ∷ entries) key (inl e) = inl e
  render-HasSelector i labels (entry ∷ entries) key (inr m) =
      inr (render-HasSelector (suc i) labels entries key m)

  render-HasDistinctSelectors :
      (i : ℕ) (labels : List (String × String)) (entries : Entries K A)
      → HasDistinctKeys entries
      → HasDistinctSelectors (render_from i labels entries)
  unfolding render_from
  render-HasDistinctSelectors i labels [] d = tt
  render-HasDistinctSelectors i labels (entry ∷ entries) (fresh, d) = (
    λ m. fresh (render-HasSelector (suc i) labels entries entry.key m),
    render-HasDistinctSelectors (suc i) labels entries d,
  )

module _ {K A : Type 0} (eq : DeepEqual K) where
  -- The objects that the program adds under a selector, in their order.
  unfoldable pub objects_under : K → List (K × A) → List A
  objects_under key [] = []
  objects_under key ((k, object) ∷ objects) =
      let rest = objects_under key objects in if eq.deep_equal k key then object ∷ rest else rest

  -- The resources of the set of a selector, none where there is no such set.
  unfoldable pub resources_under : K → List (SelectorSyncSet K A) → List A
  resources_under key [] = []
  resources_under key (s ∷ sets) =
      let rest = resources_under key sets in
      if eq.deep_equal s.cluster_deployment_selector key then s.resources else rest

  values_under : K → Entries K A → List A
  values_under key [] = []
  values_under key (entry ∷ entries) =
      let rest = values_under key entries in
      if eq.deep_equal entry.key key then entry.values else rest

  render-values :
      (i : ℕ) (labels : List (String × String)) (entries : Entries K A) (key : K)
      → resources_under key (render_from i labels entries) ≡ values_under key entries
  unfolding render_from resources_under values_under
  render-values i labels [] key = refl
  render-values i labels (entry ∷ entries) key = rw (render-values (suc i) labels entries key) refl

  add-HasKey :
      (entries : Entries K A) (key : K) (object : A) (k : K)
      → HasKey k (add eq entries key object)
      → (key ≡ k) ⊎ HasKey k entries
  unfolding add
  add-HasKey [] key object k m = ground arith
  add-HasKey (entry ∷ entries) key object k m = ground (arith, add-HasKey entries key object k)

  add-HasDistinctKeys :
      (entries : Entries K A) (key : K) (object : A)
      → HasDistinctKeys entries
      → HasDistinctKeys (add eq entries key object)
  unfolding add
  add-HasDistinctKeys [] key object d = (λ m. m, tt)
  add-HasDistinctKeys (entry ∷ entries) key object (fresh, d) = ground (
    arith,
    fresh,
    eq.deep_equal_iff entry.key key,
    add-HasKey entries key object entry.key,
    add-HasDistinctKeys entries key object d,
  )

  add_all-HasDistinctKeys :
      (entries : Entries K A) (objects : List (K × A))
      → HasDistinctKeys entries
      → HasDistinctKeys (add_all eq entries objects)
  unfolding add_all
  add_all-HasDistinctKeys entries [] d = d
  add_all-HasDistinctKeys entries ((key, object) ∷ objects) d =
      add_all-HasDistinctKeys (add eq entries key object) objects
        (add-HasDistinctKeys entries key object d)

  -- Two selectors that are deeply equal to an entry's, or not, against each other.
  found_key :
      (entry : MapEntry K A) (key k : K)
      → eq.deep_equal entry.key key ≡ true
      → eq.deep_equal entry.key k ≡ true
      → eq.deep_equal key k ≡ true
  found_key entry key k same hit =
      (eq.deep_equal_iff key k).1
        (sym ((eq.deep_equal_iff entry.key key).0 same) ∙ (eq.deep_equal_iff entry.key k).0 hit)

  joined_key :
      (entry : MapEntry K A) (key k : K)
      → eq.deep_equal key k ≡ true
      → eq.deep_equal entry.key k ≡ true
      → eq.deep_equal entry.key key ≡ true
  joined_key entry key k same hit =
      (eq.deep_equal_iff entry.key key).1
        ((eq.deep_equal_iff entry.key k).0 hit ∙ sym ((eq.deep_equal_iff key k).0 same))

  missed_key :
      (entry : MapEntry K A) (key k : K)
      → eq.deep_equal entry.key key ≡ true
      → eq.deep_equal entry.key k ≡ false
      → eq.deep_equal key k ≡ false
  missed_key entry key k same miss =
      ap (λ e. eq.deep_equal e k) (sym ((eq.deep_equal_iff entry.key key).0 same)) ∙ miss

  other_key :
      (entry : MapEntry K A) (key k : K)
      → eq.deep_equal entry.key key ≡ false
      → eq.deep_equal entry.key k ≡ true
      → eq.deep_equal key k ≡ false
  other_key entry key k other hit = elim (Bool-cases (eq.deep_equal key k)) [
    | inl same ↦ absurd (true≢false (sym (joined_key entry key k same hit) ∙ other))
    | inr miss ↦ miss
  ]

  add-values_under :
      (entries : Entries K A) (key : K) (object : A) (k : K)
      → values_under k (add eq entries key object)
        ≡ values_under k entries ++ (if eq.deep_equal key k then object ∷ [] else [])
  unfolding add values_under
  add-values_under [] key object k = refl
  add-values_under (entry ∷ entries) key object k =
      elim (Bool-cases (eq.deep_equal entry.key key)) [
        | inl same ↦ elim (Bool-cases (eq.deep_equal entry.key k)) [
          | inl hit ↦ rw same (rw hit (rw (found_key entry key k same hit) refl))
          | inr miss ↦ rw same (
              rw miss
                (rw (missed_key entry key k same miss) (sym (append-nil (values_under k entries)))))
        ]
        | inr other ↦ elim (Bool-cases (eq.deep_equal entry.key k)) [
          | inl hit ↦
              rw other
                (rw hit (rw (other_key entry key k other hit) (sym (append-nil entry.values))))
          | inr miss ↦ rw other (rw miss (add-values_under entries key object k))
        ]
      ]

  first_object :
      (b : Bool) (object : A) (rest : List A)
      → (if b then object ∷ [] else []) ++ rest ≡ (if b then object ∷ rest else rest)
  first_object true object rest = refl
  first_object false object rest = refl

  add_all-values_under :
      (entries : Entries K A) (objects : List (K × A)) (k : K)
      → values_under k (add_all eq entries objects)
        ≡ values_under k entries ++ objects_under k objects
  unfolding add_all objects_under
  add_all-values_under entries [] k = sym (append-nil (values_under k entries))
  add_all-values_under entries ((key, object) ∷ objects) k =
      add_all-values_under (add eq entries key object) objects k
      ∙ ap (λ vs. vs ++ objects_under k objects) (add-values_under entries key object k)
      ∙ append_assoc (values_under k entries) (if eq.deep_equal key k then object ∷ [] else [])
          (objects_under k objects)
      ∙ ap (λ vs. values_under k entries ++ vs)
          (first_object (eq.deep_equal key k) object (objects_under k objects))

  -- The rendered set of each selector holds the objects that were added under it, all of them and in
  -- the order of the calls.
  pub rendered_resources :
      (labels : List (String × String)) (objects : List (K × A)) (key : K)
      → resources_under key (render_selector_sync_sets (add_all eq [] objects) labels)
        ≡ objects_under key objects
  unfolding render_selector_sync_sets values_under
  rendered_resources labels objects key =
      render-values 0 labels (add_all eq [] objects) key ∙ add_all-values_under [] objects key

  -- No two rendered sets have the same selector.
  pub rendered_distinct :
      (labels : List (String × String)) (objects : List (K × A))
      → HasDistinctSelectors (render_selector_sync_sets (add_all eq [] objects) labels)
  unfolding render_selector_sync_sets
  rendered_distinct labels objects =
      render-HasDistinctSelectors 0 labels (add_all eq [] objects)
        (add_all-HasDistinctKeys [] objects tt)
