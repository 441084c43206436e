-- ===== src/Samples/NamespaceAccessRuns.antt =====
-- Runs of the theorems of Webhooks/Namespace/Access.antt on concrete inputs.
use managed_cluster_validati.Base.{◌≡◌, refl, ◌↔◌, ◌⊎◌, true, [], Any, Member}
use managed_cluster_validati.Admission.{delete}
use managed_cluster_validati.Admission.{Request, allows}
use managed_cluster_validati.Base.Text.{has_prefix}
use managed_cluster_validati.Config.Namespaces.{IsPrivilegedNamespace}
use managed_cluster_validati.Samples.{customer, two_decoder}
use managed_cluster_validati.Utils.Matching.{IsPrivilegedGroup}
use managed_cluster_validati.Webhooks.Namespace.{
  Namespace, authorized, render_namespace, render_old_and_new_namespaces,
}
use managed_cluster_validati.Webhooks.Namespace.Access.{
  IsAdmin, IsBadName, namespace_authorized_iff,
}
use managed_cluster_validati.Webhooks.Namespace.LabelGuard.{LabelsPass}

abbrev monitoring : Namespace
monitoring = record { name = "openshift-monitoring"; labels = [] }

abbrev deletion_of_namespace : Request
deletion_of_namespace = customer delete "Namespace"

namespace_authorized_iff_example :
    (allows (authorized (two_decoder monitoring monitoring) deletion_of_namespace) ≡ true) ↔ (
      IsAdmin deletion_of_namespace
      ⊎ Any IsPrivilegedGroup deletion_of_namespace.groups
      ⊎ (Member "layered-sre-cluster-admins" deletion_of_namespace.groups
          × (has_prefix monitoring.name "redhat-" ≡ true))
      ⊎ (¬ IsPrivilegedNamespace monitoring.name
          × ¬ IsBadName monitoring.name
          × LabelsPass deletion_of_namespace.operation (
              render_old_and_new_namespaces
                (two_decoder monitoring monitoring)
                deletion_of_namespace)))
unfolding render_namespace
namespace_authorized_iff_example =
    namespace_authorized_iff ((two_decoder monitoring monitoring)) deletion_of_namespace monitoring
      refl
