-- ===== src/Samples/BuildTemplateResourcesRuns.antt =====
-- Runs of the theorems of Build/Template/Resources.antt on concrete inputs.
use managed_cluster_validati.Base.{String, ◌≡◌, refl, true, List, [], ◌∷◌, ◌++◌, contains}
use managed_cluster_validati.Admission.{ok}
use mathlib.Core.List.{Permᴰ}
use managed_cluster_validati.SyncSet.Encode.{Json, Object, field, no_field, fields, flag, get_field}
use managed_cluster_validati.Admission.{Attempt, Result}
use managed_cluster_validati.SyncSet.Equality.{equal_selectors}
use managed_cluster_validati.Admission.{Attempt, Result}
use managed_cluster_validati.Base.Text.Order.{IsSorted}
use managed_cluster_validati.Build.Manifests.{ManifestFlags}
use managed_cluster_validati.Build.Selection.{resources_of}
use managed_cluster_validati.Build.Template.{
  Resource, build_selector_sync_sets, hook_flags, of_hooks, under_default,
}
use managed_cluster_validati.Build.Template.Resources.{
  IsEncoded, build_selector_sync_sets_lem, twelve_manifests,
}
use managed_cluster_validati.Build.Workloads.{Workload}
use managed_cluster_validati.Registry.{keys}
use managed_cluster_validati.Registry.Keys.{IsDistinct, all_distinct, all_distinct-IsDistinct}
use managed_cluster_validati.Server.Dispatcher.{Hooks}
use managed_cluster_validati.Server.Dispatcher.Routing.{uris}
use managed_cluster_validati.SyncSet.{SelectorSyncSet}
use managed_cluster_validati.SyncSet.Encode.{Json, Object, get_field}
use managed_cluster_validati.SyncSet.Grouping.{HasDistinctSelectors, objects_under, resources_under}
use managed_cluster_validati.Webhook.{LabelSelector, default_label_selector}
use managed_cluster_validati.Webhooks.HiveOwnership
use managed_cluster_validati.Webhooks.HostedCluster

abbrev hooks_of_two : Hooks
hooks_of_two =
    ("hostedcluster-validation", HostedCluster.hook)
    ∷ ("hiveownership-validation", HiveOwnership.hook)
    ∷ []

abbrev default_flags : ManifestFlags
default_flags = record {
  namespace = "openshift-validation-webhook";
  listen_port = 5000;
  secret_name = "webhook-cert";
  ca_bundle_name = "webhook-cert";
  replicas = 2;
}

abbrev walk_of_two : List String
walk_of_two = "hiveownership-validation" ∷ "hostedcluster-validation" ∷ []

IsDistinct-uris : IsDistinct (uris hooks_of_two)
unfolding all_distinct contains
IsDistinct-uris = all_distinct-IsDistinct (uris hooks_of_two) refl

IsDistinct-names : IsDistinct (keys hooks_of_two)
unfolding all_distinct contains
IsDistinct-names = all_distinct-IsDistinct (keys hooks_of_two) refl

abbrev daemon_pods : Object
daemon_pods = field "hostNetwork" (flag true) no_field

abbrev daemon_template : Object
daemon_template = field "spec" (fields daemon_pods) no_field

abbrev daemon_spec : Object
daemon_spec = field "template" (fields daemon_template) no_field

abbrev daemon_set_fields : Object
daemon_set_fields = field "spec" (fields daemon_spec) no_field

abbrev marshal_daemon_set : Workload → Result Json
marshal_daemon_set workload = ok (fields daemon_set_fields)

build_selector_sync_sets_lem_example :
    (sets : List (SelectorSyncSet LabelSelector Resource)) × (hooks : Hooks) × (encoded : Json)
    × (build_selector_sync_sets equal_selectors marshal_daemon_set "debug-hook" "" default_flags
          hooks_of_two walk_of_two
        ≡ Attempt.done sets)
    × IsEncoded (fields daemon_set_fields) daemon_pods encoded
    × Permᴰ hooks_of_two hooks
    × IsSorted (keys hooks)
    × HasDistinctSelectors sets
    × ((key : LabelSelector)
        → resources_under equal_selectors key sets
          ≡ objects_under equal_selectors key (
              under_default (twelve_manifests default_flags encoded)
              ++ of_hooks (resources_of (hook_flags "debug-hook" "" default_flags) hooks)))
    × (resources_under equal_selectors default_label_selector sets
        ≡ twelve_manifests default_flags encoded
          ++ objects_under equal_selectors default_label_selector
              (of_hooks (resources_of (hook_flags "debug-hook" "" default_flags) hooks)))
unfolding get_field
build_selector_sync_sets_lem_example =
    build_selector_sync_sets_lem equal_selectors marshal_daemon_set ("debug-hook") "" default_flags
      hooks_of_two walk_of_two daemon_set_fields daemon_spec daemon_template daemon_pods
      IsDistinct-names IsDistinct-uris (Permᴰ.swap refl refl) refl refl refl refl
