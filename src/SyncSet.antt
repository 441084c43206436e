-- ===== src/SyncSet.antt =====
-- pkg/syncset: the resources of the SelectorSyncSets, grouped by their label selector.
-- `reflect.DeepEqual` on selectors is the field of an interface. The encodings are in SyncSet/Encode.
pub mod Grouping
pub mod Encode
pub mod Equality
use managed_cluster_validati.Base.{
  ℕ, suc, String, ◌≡◌, ◌↔◌, Bool, true, false, List, [], ◌∷◌, ◌++◌, Option, none, some,
  if◌then◌else◌,
}

pub record DeepEqual (K : Type 0) : Type 0 where
  pub deep_equal : K → K → Bool
  pub deep_equal_iff : (a b : K) → (deep_equal a b ≡ true) ↔ (a ≡ b)

pub record MapEntry (K A : Type 0) : Type 0 where
  pub key : K
  pub values : List A

-- The field `entries` of SyncSetResourcesByLabelSelector.
abbrev pub Entries : Type 0 → Type 0 → Type 0
Entries K A = List (MapEntry K A)

-- The name of the i-th set is `managed-cluster-validating-webhooks-` and the number i.
pub record SelectorSyncSet (K A : Type 0) : Type 0 where
  pub index : ℕ
  pub resources : List A
  pub cluster_deployment_selector : K
  pub labels : List (String × String)

module _ {K A : Type 0} (eq : DeepEqual K) where
  unfoldable pub get : Entries K A → K → Option (MapEntry K A)
  get [] key = none
  get (entry ∷ entries) key =
      let rest = get entries key in if eq.deep_equal entry.key key then some entry else rest

  -- The object is appended to the entry that `Get` finds, in place, or a new entry is appended.
  unfoldable pub add : Entries K A → K → A → Entries K A
  add [] key object = (record { key = key; values = object ∷ [] }) ∷ []
  add (entry ∷ entries) key object =
      let rest = add entries key object in
      if eq.deep_equal entry.key key
      then (record { key = entry.key; values = entry.values ++ (object ∷ []) }) ∷ entries
      else entry ∷ rest

  -- The calls of `Add` in the order of the program.
  unfoldable pub add_all : Entries K A → List (K × A) → Entries K A
  add_all entries [] = entries
  add_all entries ((key, object) ∷ objects) = add_all (add entries key object) objects

module _ {K A : Type 0} where
  -- `for i, entry := range s.entries`, from the number i on.
  unfoldable pub render_from : ℕ → List (String × String) → Entries K A → List (SelectorSyncSet K A)
  render_from i labels [] = []
  render_from i labels (entry ∷ entries) =
      (record {
        index = i;
        resources = entry.values;
        cluster_deployment_selector = entry.key;
        labels = labels;
      })
      ∷ render_from (suc i) labels entries

  unfoldable pub render_selector_sync_sets :
      Entries K A → List (String × String) → List (SelectorSyncSet K A)
  render_selector_sync_sets entries labels = render_from 0 labels entries
