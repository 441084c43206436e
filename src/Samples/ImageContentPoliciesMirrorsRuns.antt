-- ===== src/Samples/ImageContentPoliciesMirrorsRuns.antt =====
-- Runs of the theorems of Webhooks/ImageContentPolicies/Mirrors.antt on concrete inputs.
use managed_cluster_validati.Base.{◌≡◌, ◌↔◌, true, List, [], ◌∷◌, Any}
use managed_cluster_validati.Admission.{create, ok}
use managed_cluster_validati.Admission.{Request, is_allowed}
use managed_cluster_validati.Samples.{customer, two_decoder}
use managed_cluster_validati.Webhooks.ImageContentPolicies.{
  Decoders, ImageTagMirrorSet, Mirror, authorized,
}
use managed_cluster_validati.Webhooks.ImageContentPolicies.Mirrors.{
  IsSystemSource, image_content_policies_authorized_iff, mirrors_of,
}

abbrev quay_mirrors : ImageTagMirrorSet
quay_mirrors = record { image_tag_mirrors = (record { source = "quay.io/openshift" }) ∷ [] }

abbrev decoders_of_mirrors : Decoders
decoders_of_mirrors = record {
  idms = two_decoder (record { image_digest_mirrors = [] }) (record { image_digest_mirrors = [] });
  itms = two_decoder quay_mirrors quay_mirrors;
  icsp =
      two_decoder (record { repository_digest_mirrors = [] })
        (record { repository_digest_mirrors = [] });
}

abbrev request_for_tag_mirrors : Request
request_for_tag_mirrors = customer create "ImageTagMirrorSet"

image_content_policies_authorized_iff_example :
    (is_allowed (authorized decoders_of_mirrors request_for_tag_mirrors).verdict ≡ true) ↔ (
      (mirrors : List Mirror) × (mirrors_of decoders_of_mirrors request_for_tag_mirrors
        ≡ ok mirrors)
      × ¬ Any (λ mirror. IsSystemSource mirror.source) mirrors)
image_content_policies_authorized_iff_example =
    image_content_policies_authorized_iff decoders_of_mirrors request_for_tag_mirrors
