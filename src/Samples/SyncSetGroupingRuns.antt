-- ===== src/Samples/SyncSetGroupingRuns.antt =====
-- Runs of the theorems of SyncSet/Grouping.antt on concrete inputs.
use managed_cluster_validati.Base.{ℕ, String, ◌≡◌, List, [], ◌∷◌, ◌==◌, eq_iff}
use managed_cluster_validati.SyncSet.{DeepEqual, add_all, render_selector_sync_sets}
use managed_cluster_validati.SyncSet.Grouping.{
  HasDistinctSelectors, objects_under, rendered_distinct, rendered_resources, resources_under,
}

equal_texts : DeepEqual String
equal_texts = record { deep_equal = λ a b. a == b; deep_equal_iff = eq_iff }

abbrev additions : List (String × ℕ)
additions = ("classic", 1) ∷ ("hypershift", 2) ∷ ("classic", 3) ∷ []

rendered_resources_example :
    resources_under equal_texts "classic"
      (render_selector_sync_sets (add_all equal_texts [] additions) [])
    ≡ objects_under equal_texts "classic" additions
rendered_resources_example = rendered_resources equal_texts [] additions "classic"

rendered_distinct_example :
    HasDistinctSelectors (render_selector_sync_sets (add_all equal_texts [] additions) [])
rendered_distinct_example = rendered_distinct equal_texts [] additions
