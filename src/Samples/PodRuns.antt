-- ===== src/Samples/PodRuns.antt =====
-- Runs of the theorems of Webhooks/Pod.antt on concrete inputs.
use managed_cluster_validati.Base.{◌≡◌, refl, ◌↔◌, false, [], ◌∷◌, Any}
use managed_cluster_validati.Admission.{create}
use managed_cluster_validati.Admission.{Request, is_allowed}
use managed_cluster_validati.Samples.{customer, two_decoder}
use managed_cluster_validati.Webhooks.Pod.{
  IsExempt, IsReserved, Pod, authorized, pod_authorized_iff, render_pod,
}

abbrev sample_pod : Pod
sample_pod = record {
  namespace = "shop";
  tolerations = (record { key = "node-role.kubernetes.io/infra"; effect = "NoSchedule" }) ∷ [];
}

abbrev request_for_pod : Request
request_for_pod = customer create "Pod"

pod_authorized_iff_example :
    (is_allowed (authorized (two_decoder sample_pod sample_pod) request_for_pod).verdict ≡ false)
    ↔ (Any IsReserved sample_pod.tolerations × ¬ IsExempt sample_pod.namespace)
unfolding render_pod
pod_authorized_iff_example =
    pod_authorized_iff ((two_decoder sample_pod sample_pod)) request_for_pod sample_pod refl
