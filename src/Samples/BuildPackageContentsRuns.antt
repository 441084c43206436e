-- ===== src/Samples/BuildPackageContentsRuns.antt =====
-- Runs of the theorems of Build/Package/Contents.antt on concrete inputs.
use managed_cluster_validati.Base.{◌≡◌, refl, List, [], ◌∷◌, contains}
use managed_cluster_validati.Admission.{ok}
use managed_cluster_validati.SyncSet.Encode.{
  Json, Object, field, no_field, fields, text, items, item, no_item, get_field,
}
use managed_cluster_validati.Admission.{Attempt, Result}
use managed_cluster_validati.Admission.{Attempt, Result}
use managed_cluster_validati.Build.{Flags}
use managed_cluster_validati.Build.Package.{PackagedConfiguration, package_hooks}
use managed_cluster_validati.Build.Package.Contents.{IsTree, Packaged, package_lem}
use managed_cluster_validati.Registry.Keys.{IsDistinct, all_distinct, all_distinct-IsDistinct}
use managed_cluster_validati.Server.Dispatcher.{Hooks}
use managed_cluster_validati.Server.Dispatcher.Routing.{uris}
use managed_cluster_validati.SyncSet.Encode.{Json, Object, get_field}
use managed_cluster_validati.Webhooks.HiveOwnership
use managed_cluster_validati.Webhooks.HostedCluster

abbrev hooks_of_two : Hooks
hooks_of_two =
    ("hostedcluster-validation", HostedCluster.hook)
    ∷ ("hiveownership-validation", HiveOwnership.hook)
    ∷ []

abbrev client_fields : Object
client_fields = field "caBundle" (text "e3suY29uZmlnLnNlcnZpY2VjYSB8IGI2NGVuYyB9fQ==") no_field

abbrev hook_fields : Object
hook_fields =
    field "name" (text "scc-validation") (field "clientConfig" (fields client_fields) no_field)

abbrev top_fields : Object
top_fields =
    field "kind" (text "ValidatingWebhookConfiguration")
      (field "webhooks" (items (item (fields hook_fields) no_item)) no_field)

abbrev marshal_any : PackagedConfiguration → Result Json
marshal_any configuration = ok (fields top_fields)

marshals_any :
    (configuration : PackagedConfiguration)
    → (tree : Json) × (marshal_any configuration ≡ ok tree) × IsTree tree
unfolding get_field
marshals_any configuration =
    (fields top_fields, refl, (top_fields, hook_fields, client_fields, no_item, refl, refl, refl))

abbrev flags_of_build : Flags
flags_of_build = record {
  excludes = "debug-hook";
  only = "";
  namespace = "openshift-validation-webhook";
}

IsDistinct-uris : IsDistinct (uris hooks_of_two)
unfolding all_distinct contains
IsDistinct-uris = all_distinct-IsDistinct (uris hooks_of_two) refl

package_lem_example :
    (trees : List Json) × (package_hooks marshal_any flags_of_build [] hooks_of_two
      ≡ Attempt.done trees)
    × Packaged marshal_any flags_of_build hooks_of_two trees
package_lem_example =
    package_lem marshal_any marshals_any flags_of_build hooks_of_two IsDistinct-uris
