-- ===== src/Samples/BuildOrderRuns.antt =====
-- Runs of the theorems of Build/Order.antt on concrete inputs.
use managed_cluster_validati.Base.{String, ◌≡◌, refl, some, List, [], ◌∷◌, contains}
use mathlib.Core.List.{Permᴰ}
use managed_cluster_validati.Base.Text.Order.{IsSorted, sort_strings}
use managed_cluster_validati.Build.{Flags}
use managed_cluster_validati.Build.Order.{build_template, build_template-walks, build_template_lem}
use managed_cluster_validati.Build.Selection.{resources_of}
use managed_cluster_validati.Registry.{keys}
use managed_cluster_validati.Registry.Keys.{IsDistinct, all_distinct, all_distinct-IsDistinct}
use managed_cluster_validati.Server.Dispatcher.{Hooks}
use managed_cluster_validati.Server.Dispatcher.Routing.{uris}
use managed_cluster_validati.Webhooks.HiveOwnership
use managed_cluster_validati.Webhooks.HostedCluster

abbrev hooks_of_two : Hooks
hooks_of_two =
    ("hostedcluster-validation", HostedCluster.hook)
    ∷ ("hiveownership-validation", HiveOwnership.hook)
    ∷ []

abbrev walk_of_two : List String
walk_of_two = "hiveownership-validation" ∷ "hostedcluster-validation" ∷ []

abbrev flags_of_build : Flags
flags_of_build = record {
  excludes = "debug-hook";
  only = "";
  namespace = "openshift-validation-webhook";
}

IsDistinct-uris : IsDistinct (uris hooks_of_two)
unfolding all_distinct contains
IsDistinct-uris = all_distinct-IsDistinct (uris hooks_of_two) refl

IsDistinct-names : IsDistinct (keys hooks_of_two)
unfolding all_distinct contains
IsDistinct-names = all_distinct-IsDistinct (keys hooks_of_two) refl

build_template_lem_example :
    (hooks : Hooks) × (build_template flags_of_build hooks_of_two walk_of_two
      ≡ some (resources_of flags_of_build hooks))
    × Permᴰ hooks_of_two hooks
    × (keys hooks ≡ sort_strings walk_of_two)
    × IsSorted (keys hooks)
build_template_lem_example =
    build_template_lem flags_of_build hooks_of_two walk_of_two IsDistinct-names IsDistinct-uris
      (Permᴰ.swap refl refl)

build_template-walks_example :
    build_template flags_of_build hooks_of_two (keys hooks_of_two)
    ≡ build_template flags_of_build hooks_of_two walk_of_two
build_template-walks_example =
    build_template-walks flags_of_build hooks_of_two ((keys hooks_of_two)) walk_of_two
      (Permᴰ.swap refl refl)
