-- ===== src/Samples/PodImageSpecReferenceRuns.antt =====
-- Runs of the theorems of Webhooks/PodImageSpec/Reference.antt on concrete inputs.
use managed_cluster_validati.Base.{◌≡◌, refl, some, arith}
use managed_cluster_validati.Base.Text.Laws.{Lacks}
use managed_cluster_validati.Webhooks.PodImageSpec.{ImageRef, check_container_image_spec_by_regex}
use managed_cluster_validati.Webhooks.PodImageSpec.Reference.{
  IsSolid, IsWord, check-print_ref, print_ref,
}

abbrev cli_ref : ImageRef
cli_ref = record { namespace = "openshift"; image = "cli"; tag = "latest" }

IsSolid-openshift : IsSolid "openshift"
IsSolid-openshift = (refl, (refl, (refl, (refl, (refl, (refl, (refl, (refl, (refl, tt)))))))))

IsWord-cli : IsWord "cli"
IsWord-cli = (refl, (refl, (refl, tt)))

IsSolid-latest : IsSolid "latest"
IsSolid-latest = (refl, (refl, (refl, (refl, (refl, (refl, tt))))))

Lacks-latest : Lacks 47 "latest"
Lacks-latest = ground arith

check-print_ref_example : check_container_image_spec_by_regex (print_ref cli_ref) ≡ some cli_ref
check-print_ref_example =
    check-print_ref cli_ref IsSolid-openshift IsWord-cli IsSolid-latest Lacks-latest
