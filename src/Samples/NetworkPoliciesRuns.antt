-- ===== src/Samples/NetworkPoliciesRuns.antt =====
-- Runs of the theorems of Webhooks/NetworkPolicies.antt on concrete inputs.
use managed_cluster_validati.Base.{◌≡◌, refl, ◌≢◌, ◌↔◌, ◌⊎◌, false, [], Any}
use managed_cluster_validati.Admission.{create}
use managed_cluster_validati.Admission.{Request, is_allowed}
use managed_cluster_validati.Config.Namespaces.{IsPrivilegedNamespace}
use managed_cluster_validati.Samples.{customer, two_decoder}
use managed_cluster_validati.Utils.Matching.{IsPrivilegedGroup}
use managed_cluster_validati.Webhooks.NetworkPolicies.{
  IsAllowed, MayAffectDefaultIngress, NetworkPolicy, authorized, network_policies_authorized_iff,
  render_network_policy,
}

abbrev sample_np : NetworkPolicy
sample_np = record { namespace = "openshift-ingress"; match_labels = [] }

abbrev request_for_np : Request
request_for_np = customer create "NetworkPolicy"

network_policies_authorized_iff_example :
    (is_allowed (authorized (two_decoder sample_np sample_np) request_for_np).verdict ≡ false) ↔ (
      ¬ Any IsPrivilegedGroup request_for_np.groups
      × (((sample_np.namespace ≡ "openshift-ingress") × MayAffectDefaultIngress sample_np)
          ⊎ ((sample_np.namespace ≢ "openshift-ingress")
              × IsPrivilegedNamespace sample_np.namespace
              × ¬ IsAllowed request_for_np)))
unfolding render_network_policy
network_policies_authorized_iff_example =
    network_policies_authorized_iff ((two_decoder sample_np sample_np)) request_for_np sample_np
      refl
