-- ===== src/Samples/PodImageSpecRecognitionRuns.antt =====
-- Runs of the theorems of Webhooks/PodImageSpec/Recognition.antt on concrete inputs.
use managed_cluster_validati.Base.{String, ◌≡◌, refl, some}
use Prim.Native.String
use managed_cluster_validati.Base.Text.{strip_prefix}
use managed_cluster_validati.Webhooks.PodImageSpec.{
  ImageRef, check_container_image_spec_by_regex, image_at, namespace_at, registry_prefix, tag_at,
}
use managed_cluster_validati.Webhooks.PodImageSpec.Recognition.{IsPathAt, check_lem}

abbrev cli_ref : ImageRef
cli_ref = record { namespace = "openshift"; image = "cli"; tag = "latest" }

check_lem_example :
    (path : String) × ("image-registry.openshift-image-registry.svc:5000/openshift/cli:latest"
      ≡ String.◌++◌ registry_prefix path)
    × IsPathAt path (some cli_ref)
unfolding check_container_image_spec_by_regex strip_prefix namespace_at image_at tag_at
check_lem_example =
    check_lem ("image-registry.openshift-image-registry.svc:5000/openshift/cli:latest") cli_ref refl
