-- ===== src/Samples/PodImageSpecMutationRuns.antt =====
-- Runs of the theorems of Webhooks/PodImageSpec/Mutation.antt on concrete inputs.
use managed_cluster_validati.Base.{ℕ, String, ◌≡◌, ◌↔◌, some, [], ◌∷◌}
use managed_cluster_validati.Admission.{ok}
use managed_cluster_validati.Admission.{Attempt}
use managed_cluster_validati.Samples.{two_decoder}
use managed_cluster_validati.Webhooks.PodImageSpec.{
  Container, KubeClient, Platform, Pod, mutate_containers,
}
use managed_cluster_validati.Webhooks.PodImageSpec.Mutation.{AreMutated, mutate_containers_iff}

abbrev debug_container : Container ℕ
debug_container = record {
  image = "image-registry.openshift-image-registry.svc:5000/openshift/cli:latest";
  others = 7;
}

abbrev plain_container : Container ℕ
plain_container = record { image = "quay.io/shop/web:1"; others = 8 }

abbrev debug_pod : Pod ℕ String
debug_pod = record {
  containers = debug_container ∷ plain_container ∷ [];
  init_containers = [];
  others = "debug";
}

abbrev client_of_removed : KubeClient
client_of_removed = record {
  registry_state = ok "Removed";
  image_stream_tag = λ name namespace. ok (some (some "quay.io/ocp/cli@sha256:1"));
}

abbrev platform_of_removed : Platform ℕ String
platform_of_removed = record {
  new_client = ok client_of_removed;
  decoder = two_decoder debug_pod debug_pod;
  marshal = λ pod. ok pod.others;
  complete = λ request response. ok response;
}

mutate_containers_iff_example :
    (mutate_containers client_of_removed debug_pod.containers ≡ Attempt.done debug_pod.containers)
    ↔ AreMutated client_of_removed debug_pod.containers debug_pod.containers
mutate_containers_iff_example =
    mutate_containers_iff client_of_removed debug_pod.containers debug_pod.containers
