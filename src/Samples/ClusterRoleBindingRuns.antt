-- ===== src/Samples/ClusterRoleBindingRuns.antt =====
-- Runs of the theorems of Webhooks/ClusterRoleBinding.antt on concrete inputs.
use managed_cluster_validati.Base.{◌≡◌, refl, ◌↔◌, ◌⊎◌, false, [], ◌∷◌, Any}
use managed_cluster_validati.Admission.{delete}
use managed_cluster_validati.Admission.{Request, is_allowed}
use managed_cluster_validati.Samples.{customer, two_decoder}
use managed_cluster_validati.Webhooks.ClusterRoleBinding.{
  ClusterRoleBinding, IsAllowed, IsManagedAccount, IsMustGather, IsSystemUser, authorized,
  cluster_role_binding_authorized_iff, render_cluster_role_binding,
}

abbrev sample_binding : ClusterRoleBinding
sample_binding = record {
  name = "admin";
  command = "";
  subjects = (record { kind = "ServiceAccount"; namespace = "openshift-monitoring" }) ∷ [];
}

abbrev request_for_binding : Request
request_for_binding = customer delete "ClusterRoleBinding"

cluster_role_binding_authorized_iff_example :
    (is_allowed (authorized (two_decoder sample_binding sample_binding) request_for_binding).verdict
      ≡ false)
    ↔ ((request_for_binding.username ≡ "system:unauthenticated")
        ⊎ ((request_for_binding.operation ≡ delete)
            × Any IsManagedAccount sample_binding.subjects
            × ¬ IsSystemUser request_for_binding.username
            × ¬ IsAllowed request_for_binding
            × ¬ IsMustGather request_for_binding sample_binding))
unfolding render_cluster_role_binding
cluster_role_binding_authorized_iff_example =
    cluster_role_binding_authorized_iff ((two_decoder sample_binding sample_binding))
      request_for_binding sample_binding refl
