-- ===== src/Samples/PodImageSpecPatchRuns.antt =====
-- Runs of the theorems of Webhooks/PodImageSpec/Patch.antt on concrete inputs.
use managed_cluster_validati.Base.{ℕ, String, ◌≡◌, ◌≢◌, ◌↔◌, none, some, [], ◌∷◌}
use managed_cluster_validati.Admission.{create, ok}
use managed_cluster_validati.Admission.{returned, answer, Verdict}
use managed_cluster_validati.Admission.{Request, Verdict, answer}
use managed_cluster_validati.Samples.{customer, two_decoder}
use managed_cluster_validati.Webhooks.PodImageSpec.{
  Container, KubeClient, Platform, Pod, authorize, kube_client,
}
use managed_cluster_validati.Webhooks.PodImageSpec.Patch.{
  HasOpenshift, IsMutation, authorize_patch_iff,
}

abbrev debug_container : Container ℕ
debug_container = record {
  image = "image-registry.openshift-image-registry.svc:5000/openshift/cli:latest";
  others = 7;
}

abbrev plain_container : Container ℕ
plain_container = record { image = "quay.io/shop/web:1"; others = 8 }

abbrev debug_pod : Pod ℕ String
debug_pod = record {
  containers = debug_container ∷ plain_container ∷ [];
  init_containers = [];
  others = "debug";
}

abbrev client_of_removed : KubeClient
client_of_removed = record {
  registry_state = ok "Removed";
  image_stream_tag = λ name namespace. ok (some (some "quay.io/ocp/cli@sha256:1"));
}

abbrev platform_of_removed : Platform ℕ String
platform_of_removed = record {
  new_client = ok client_of_removed;
  decoder = two_decoder debug_pod debug_pod;
  marshal = λ pod. ok pod.others;
  complete = λ request response. ok response;
}

abbrev pod_creation : Request
pod_creation = customer create "Pod"

authorize_patch_iff_example :
    (authorize platform_of_removed none pod_creation
      ≡ returned (answer pod_creation (Verdict.patched_from_raw pod_creation.object "debug")))
    ↔ ((client : KubeClient) × (pod : Pod ℕ String) × (state : String) × (kube_client
            platform_of_removed none
          ≡ ok client)
        × (platform_of_removed.decoder.decode_raw pod_creation.object ≡ ok pod)
        × HasOpenshift pod
        × (client.registry_state ≡ ok state)
        × (state ≢ "Managed")
        × IsMutation client platform_of_removed.marshal pod "debug")
authorize_patch_iff_example = authorize_patch_iff platform_of_removed none pod_creation "debug"
