-- ===== src/Webhooks/Service.antt =====
-- pkg/webhooks/service/service.go: LoadBalancer services are given the compliance tag. This is the one
-- webhook that patches. The replacer of RFC 6901 is written out, character by character.
pub mod Tags
use Prim.Native.Char.{Char, code}
use Prim.Native.String
use managed_cluster_validati.Base.Maps.{Labels, lookup, value_of, or_empty}
use managed_cluster_validati.Base.{
  ℕ, String, ◌≡◌, refl, ◌≢◌, ◌↔◌, ◌⊎◌, inl, inr, Bool, true, false, not, ◌&&◌, ◌||◌, Option, none,
  some, List, [], ◌∷◌, ◌++◌, arith, any, Any, any_iff, any-eq_iff, contains, contains_iff, Member,
  ◌==◌, eq_iff, if◌then◌else◌, Bool-cases, length, nat_eq, ltb, leb, or-true,
}
use managed_cluster_validati.Base.Text.{
  concat, print_list, has_prefix, has_substring, split, join, join_with, codes, strip_prefix,
}
use managed_cluster_validati.Regex.{
  Regex, begin, end, any_char, seq, alt, star, chars, exactly, starting, optional, match,
}
use managed_cluster_validati.Regex.Shapes.{
  match-exactly, match-exactly_eq, match-starting, match-alt, match-chars,
}
use managed_cluster_validati.Admission.{
  Operation, create, update, delete, connect, is_create, is_update, is_delete, Request, Response,
  Verdict, allow, deny, errored, validation, is_allowed, answer, bad_request, Patch, PatchValue,
  patched, Outcome, returned, panicked, allows, Result, ok, fail, Decoder,
}
use managed_cluster_validati.Utils.{
  request_matches_group_kind, regex_slice_contains, webhook_response,
  privileged_service_account_groups, has_privileged_group, protected_names,
  is_protected_by_resource_name,
}
use managed_cluster_validati.Utils.Matching.{
  IsPrivilegedGroup, has_privileged_group_iff, is_protected_by_resource_name_iff,
}
use managed_cluster_validati.Config.{is_privileged_namespace, privileged_namespace_texts}
use managed_cluster_validati.Config.Namespaces.{IsPrivilegedNamespace, is_privileged_namespace_iff}
use managed_cluster_validati.Webhook.{Rule, LabelSelector, Webhook, default_label_selector}

abbrev pub annotation_key : String
annotation_key = "service.beta.kubernetes.io/aws-load-balancer-additional-resource-tags"

abbrev pub annotation_value_prefix : String
annotation_value_prefix = "red-hat-managed="

-- annotationValuePrefix + annotationValueSuffix
abbrev pub managed_tag : String
managed_tag = "red-hat-managed=true"

abbrev rules : List Rule
rules =
    record {
      operations = "CREATE" ∷ "UPDATE" ∷ [];
      api_groups = "" ∷ [];
      api_versions = "v1" ∷ [];
      resources = "services" ∷ [];
      scope = "Namespaced";
    }
    ∷ []

-- The fields that are read; `annotations` is `none` where the map is nil.
pub record Service : Type 0 where
  pub name : String
  pub spec_type : String
  pub annotations : Option Labels

-- A read of a nil map finds nothing.
unfoldable pub annotation : Option Labels → Option String
annotation none = none
annotation (some annotations) = lookup annotation_key annotations

unfoldable pub has_red_hat_managed_tag : Option Labels → Bool
has_red_hat_managed_tag annotations =
    contains (split b',' (or_empty (annotation annotations))) managed_tag

-- strings.NewReplacer("~", "~0", "/", "~1")
unfoldable pub escape : String → String
escape String.[] = ""
escape (String.◌∷◌ c s) =
    let rest = escape s in
    if nat_eq (code c) b'~'
    then String.◌++◌ "~0" rest
    else if nat_eq (code c) b'/'
    then String.◌++◌ "~1" rest
    else String.◌∷◌ c rest

unfoldable pub patch_path : Option Labels → String
patch_path none = "/metadata/annotations"
patch_path (some _) = String.◌++◌ "/metadata/annotations/" (escape annotation_key)

-- The loop over the existing tags: those that conflict with the required tag are dropped.
unfoldable pub kept_tags : List String → List String
kept_tags [] = []
kept_tags (tag ∷ tags) =
    let rest = kept_tags tags in
    if not (has_prefix tag annotation_value_prefix) then tag ∷ rest else rest

unfoldable pub new_tags : String → List String
unfolding kept_tags
new_tags existing_annotation_value = managed_tag ∷ kept_tags (split b',' existing_annotation_value)

unfoldable value_to_add : Option Labels → PatchValue
value_to_add none = PatchValue.map_value ((annotation_key, managed_tag) ∷ [])
value_to_add (some _) = PatchValue.text_value managed_tag

unfoldable patch_for : Option Labels → Option String → Patch
unfolding value_to_add patch_path new_tags
patch_for annotations none = record {
  op = "add";
  path = patch_path annotations;
  value = value_to_add annotations;
}
patch_for annotations (some existing) = record {
  op = "replace";
  path = patch_path annotations;
  value = PatchValue.text_value (join "," (new_tags existing));
}

unfoldable pub build_patch : Option Labels → Patch
unfolding patch_for annotation
build_patch annotations = patch_for annotations (annotation annotations)

unfoldable pub render_service : Decoder Service → Request → Result Service
render_service decoder request = decoder.decode_raw request.object

unfoldable mutate : Request → Result Service → Response
mutate request (fail err) = bad_request err
mutate request (ok service) =
    if not (service.spec_type == "LoadBalancer")
    then answer request
        (allow "Non-LoadBalancer Services are exempt from compliance annotation requirements")
    else if has_red_hat_managed_tag service.annotations
    then answer request (
        allow (
          concat ("Service '" ∷ service.name ∷ "' contains the proper compliance annotation" ∷ [])))
    else answer request (
        patched
          (concat ("Added necessary compliance annotation to service '" ∷ service.name ∷ "'" ∷ []))
          (build_patch service.annotations))

unfoldable pub authorized : Decoder Service → Request → Response
unfolding mutate
authorized decoder request = mutate request (render_service decoder request)

unfoldable pub validate : Request → Bool
validate request = not (request.username == "") && request.kind == "Service"

abbrev pub hook : Decoder Service → Webhook
hook decoder = record {
  authorized = λ request. returned (authorized decoder request);
  uri = "/service-mutation";
  validate = validate;
  name = "service-mutation";
  failure_policy = "Ignore";
  match_policy = "Equivalent";
  rules = rules;
  object_selector = none;
  side_effects = "None";
  timeout_seconds = 2;
  sync_set_label_selector = default_label_selector;
  classic_enabled = false;
  hypershift_enabled = true;
}
