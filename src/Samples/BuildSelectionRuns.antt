-- ===== src/Samples/BuildSelectionRuns.antt =====
-- Runs of the theorems of Build/Selection.antt on concrete inputs.
use managed_cluster_validati.Base.{String, ◌≡◌, ◌≢◌, ◌↔◌, none, [], ◌∷◌, arith, eq_iff}
use managed_cluster_validati.Build.{Flags, add_hooks, resource_of}
use managed_cluster_validati.Build.Selection.{AddsResource, build_panics_iff, only_excludes_all}
use managed_cluster_validati.Registry.Keys.{IsDistinct}
use managed_cluster_validati.Server.Dispatcher.{Hooks}
use managed_cluster_validati.Server.Dispatcher.Routing.{uris}
use managed_cluster_validati.Webhooks.HiveOwnership

abbrev flags_of_build : Flags
flags_of_build = record {
  excludes = "debug-hook";
  only = "";
  namespace = "openshift-validation-webhook";
}

abbrev hooks_twice : Hooks
hooks_twice = ("first", HiveOwnership.hook) ∷ ("second", HiveOwnership.hook) ∷ []

build_panics_iff_example :
    (add_hooks flags_of_build [] hooks_twice ≡ none) ↔ ¬ IsDistinct (uris hooks_twice)
build_panics_iff_example = build_panics_iff flags_of_build hooks_twice

abbrev flags_with_only : Flags
flags_with_only = record {
  excludes = "debug-hook";
  only = "hiveownership-validation";
  namespace = "openshift-validation-webhook";
}

not_empty : ◌≢◌ {A = String} "hiveownership-validation" ""
not_empty e = ground (arith, (eq_iff "hiveownership-validation" "").1 e)

only_excludes_all_example :
    ¬ AddsResource (resource_of flags_with_only "hiveownership-validation" HiveOwnership.hook)
only_excludes_all_example =
    only_excludes_all flags_with_only ("hiveownership-validation") HiveOwnership.hook not_empty
      (ground arith)
