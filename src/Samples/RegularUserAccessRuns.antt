-- ===== src/Samples/RegularUserAccessRuns.antt =====
-- Runs of the theorems of Webhooks/RegularUser/Access.antt on concrete inputs.
use managed_cluster_validati.Base.{◌≡◌, ◌≢◌, ◌↔◌, ◌⊎◌, true}
use managed_cluster_validati.Admission.{update}
use managed_cluster_validati.Admission.{Request, is_allowed}
use managed_cluster_validati.Base.Text.{has_prefix}
use managed_cluster_validati.Samples.{customer, two_decoder}
use managed_cluster_validati.Webhooks.RegularUser.{ConfigMap, NetNamespace, authorized}
use managed_cluster_validati.Webhooks.RegularUser.Access.{
  IsClusterVersionUser, IsMachineConfigUser, IsOn, MayManage, MayPass, regular_user_authorized_iff,
}

abbrev kept : NetNamespace
kept = record { name = "openshift-sdn" }

abbrev bundle : ConfigMap
bundle = record { name = "user-ca-bundle"; namespace = "openshift-config" }

abbrev request_for_bundle : Request
request_for_bundle = customer update "ConfigMap"

regular_user_authorized_iff_example :
    (is_allowed
        (authorized (two_decoder kept kept) (two_decoder bundle bundle) request_for_bundle).verdict
      ≡ true)
    ↔ ((request_for_bundle.username ≢ "system:unauthenticated")
        × (((request_for_bundle.group ≡ "machineconfiguration.openshift.io")
              × IsMachineConfigUser request_for_bundle)
            ⊎ ((request_for_bundle.group ≢ "machineconfiguration.openshift.io")
                × ((has_prefix request_for_bundle.username "kube:" ≡ true)
                    ⊎ (IsOn "ClusterVersion" "config.openshift.io" request_for_bundle
                        × IsClusterVersionUser request_for_bundle)
                    ⊎ (¬ IsOn "ClusterVersion" "config.openshift.io" request_for_bundle
                        × (MayManage (two_decoder kept kept) request_for_bundle
                            ⊎ MayPass (two_decoder bundle bundle) request_for_bundle))))))
regular_user_authorized_iff_example =
    regular_user_authorized_iff ((two_decoder kept kept)) ((two_decoder bundle bundle))
      request_for_bundle
