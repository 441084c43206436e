-- ===== src/Webhooks/ImageContentPolicies.antt =====
-- pkg/webhooks/imagecontentpolicies/imagecontentpolicies.go: no mirror is configured that would
-- conflict with a system registry. The API server always sets the kind of the original request.
pub mod Mirrors
use managed_cluster_validati.Base.{
  ℕ, String, ◌≡◌, refl, ◌≢◌, ◌↔◌, ◌⊎◌, inl, inr, Bool, true, false, not, ◌&&◌, ◌||◌, Option, none,
  some, List, [], ◌∷◌, ◌++◌, arith, any, Any, any_iff, any-eq_iff, contains, contains_iff, Member,
  ◌==◌, eq_iff, if◌then◌else◌, Bool-cases, length, nat_eq, ltb, leb, or-true,
}
use managed_cluster_validati.Base.Text.{
  concat, print_list, has_prefix, has_substring, split, join, join_with, codes, strip_prefix,
}
use managed_cluster_validati.Regex.{
  Regex, begin, end, any_char, seq, alt, star, chars, exactly, starting, optional, match,
}
use managed_cluster_validati.Regex.Shapes.{
  match-exactly, match-exactly_eq, match-starting, match-alt, match-chars,
}
use managed_cluster_validati.Admission.{
  Operation, create, update, delete, connect, is_create, is_update, is_delete, Request, Response,
  Verdict, allow, deny, errored, validation, is_allowed, answer, bad_request, Outcome, returned,
  panicked, allows, Result, ok, fail, Decoder,
}
use managed_cluster_validati.Utils.{
  request_matches_group_kind, regex_slice_contains, webhook_response,
  privileged_service_account_groups, has_privileged_group, protected_names,
  is_protected_by_resource_name,
}
use managed_cluster_validati.Utils.Matching.{
  IsPrivilegedGroup, has_privileged_group_iff, is_protected_by_resource_name_iff,
}
use managed_cluster_validati.Config.{is_privileged_namespace, privileged_namespace_texts}
use managed_cluster_validati.Config.Namespaces.{IsPrivilegedNamespace, is_privileged_namespace_iff}
use managed_cluster_validati.Webhook.{Rule, LabelSelector, Webhook, default_label_selector}

-- (^registry\.redhat\.io$|^quay\.io(/.*)?$|^registry\.access\.redhat\.com(/.*)?)
abbrev pub below : Regex
below = optional (seq (chars "/") (star any_char))

abbrev pub quay_pattern : Regex
quay_pattern = seq begin (seq (chars "quay.io") (seq below end))

abbrev pub access_pattern : Regex
access_pattern = seq begin (seq (chars "registry.access.redhat.com") below)

abbrev pub unauthorized_repository_mirrors : Regex
unauthorized_repository_mirrors =
    alt (exactly "registry.redhat.io") (alt quay_pattern access_pattern)

-- The fields that are read of the three kinds.
pub record Mirror : Type 0 where
  pub source : String

pub record ImageDigestMirrorSet : Type 0 where
  pub image_digest_mirrors : List Mirror

pub record ImageTagMirrorSet : Type 0 where
  pub image_tag_mirrors : List Mirror

pub record ImageContentSourcePolicy : Type 0 where
  pub repository_digest_mirrors : List Mirror

pub record Decoders : Type 0 where
  pub idms : Decoder ImageDigestMirrorSet
  pub itms : Decoder ImageTagMirrorSet
  pub icsp : Decoder ImageContentSourcePolicy

abbrev rules : List Rule
rules =
    record {
      operations = "CREATE" ∷ "UPDATE" ∷ [];
      api_groups = "config.openshift.io" ∷ [];
      api_versions = "*" ∷ [];
      resources = "imagedigestmirrorsets" ∷ "imagetagmirrorsets" ∷ [];
      scope = "Cluster";
    }
    ∷ record {
      operations = "CREATE" ∷ "UPDATE" ∷ [];
      api_groups = "operator.openshift.io" ∷ [];
      api_versions = "*" ∷ [];
      resources = "imagecontentsourcepolicies" ∷ [];
      scope = "Cluster";
    }
    ∷ []

abbrev pub is_unauthorized : Mirror → Bool
is_unauthorized mirror = match unauthorized_repository_mirrors mirror.source

unfoldable pub authorize_image_digest_mirror_set : ImageDigestMirrorSet → Bool
authorize_image_digest_mirror_set idms = not (any is_unauthorized idms.image_digest_mirrors)

unfoldable pub authorize_image_tag_mirror_set : ImageTagMirrorSet → Bool
authorize_image_tag_mirror_set itms = not (any is_unauthorized itms.image_tag_mirrors)

unfoldable pub authorize_image_content_source_policy : ImageContentSourcePolicy → Bool
authorize_image_content_source_policy icsp =
    not (any is_unauthorized icsp.repository_digest_mirrors)

abbrev pub webhook_doc : String
webhook_doc =
    "Managed OpenShift customers may not create ImageContentSourcePolicy, ImageDigestMirrorSet, or ImageTagMirrorSet resources that configure mirrors that would conflict with system registries (e.g. quay.io, registry.redhat.io, registry.access.redhat.com, etc). For more details, see https://docs.openshift.com/"

-- One case of the switch over `request.RequestKind.Kind`.
abbrev pub decide : {A : Type 0} → (A → Bool) → Request → Result A → Response
decide authorize request (fail err) = bad_request err
decide authorize request (ok object) =
    if authorize object
    then webhook_response request true ""
    else webhook_response request false webhook_doc

unfoldable pub authorized : Decoders → Request → Response
authorized decoders request =
    if request.request_kind == "ImageDigestMirrorSet"
    then decide authorize_image_digest_mirror_set request (decoders.idms.decode_raw request.object)
    else if request.request_kind == "ImageTagMirrorSet"
    then decide authorize_image_tag_mirror_set request (decoders.itms.decode_raw request.object)
    else if request.request_kind == "ImageContentSourcePolicy"
    then decide authorize_image_content_source_policy request
        (decoders.icsp.decode_raw request.object)
    else webhook_response request true ""

unfoldable pub validate : Request → Bool
validate request =
    if request.object == ""
    then false
    else request.kind == "ImageDigestMirrorSet"
      || (request.kind == "ImageTagMirrorSet" || request.kind == "ImageContentSourcePolicy")

abbrev pub hook : Decoders → Webhook
hook decoders = record {
  authorized = λ request. returned (authorized decoders request);
  uri = "/imagecontentpolicies-validation";
  validate = validate;
  name = "imagecontentpolicies-validation";
  failure_policy = "Fail";
  match_policy = "Equivalent";
  rules = rules;
  object_selector = none;
  side_effects = "None";
  timeout_seconds = 2;
  sync_set_label_selector = default_label_selector;
  classic_enabled = true;
  hypershift_enabled = false;
}
