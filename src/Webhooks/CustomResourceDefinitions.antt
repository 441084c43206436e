-- ===== src/Webhooks/CustomResourceDefinitions.antt =====
-- pkg/webhooks/customresourcedefinitions/customresourcedefinitions.go: customers do not change the
-- definitions of the monitoring resources.
use managed_cluster_validati.Base.{
  String, ◌≡◌, ◌↔◌, ◌⊎◌, Bool, true, false, not, ◌&&◌, ◌||◌, none, List, [], ◌∷◌, arith, any, Any,
  any_iff, contains, contains_iff, Member, ◌==◌, if◌then◌else◌,
}
use managed_cluster_validati.Base.Text.{concat, join_with}
use managed_cluster_validati.Admission.{
  Request, Response, allow, deny, is_allowed, answer, bad_request, returned, Result, ok, fail,
  Decoder,
}
use managed_cluster_validati.Utils.{
  has_privileged_group, protected_names, is_protected_by_resource_name,
}
use managed_cluster_validati.Utils.Matching.{
  IsPrivilegedGroup, has_privileged_group_iff, is_protected_by_resource_name_iff,
}
use managed_cluster_validati.Webhook.{Rule, Webhook, default_label_selector}

abbrev pub allowed_users : List String
allowed_users = "system:admin" ∷ "backplane-cluster-admin" ∷ []

abbrev pub sre_admin_groups : List String
sre_admin_groups = "system:serviceaccounts:openshift-backplane-srep" ∷ []

abbrev rules : List Rule
rules =
    record {
      operations = "CREATE" ∷ "UPDATE" ∷ "DELETE" ∷ [];
      api_groups = "apiextensions.k8s.io" ∷ [];
      api_versions = "*" ∷ [];
      resources = "customresourcedefinitions" ∷ [];
      scope = "Cluster";
    }
    ∷ []

pub record CustomResourceDefinition : Type 0 where
  pub name : String

is_allowed_user : Request → Bool
is_allowed_user request =
    contains allowed_users request.username
    || any (λ group. contains request.groups group) sre_admin_groups

unfoldable pub render_custom_resource_definition :
    Decoder CustomResourceDefinition → Request → Result CustomResourceDefinition
render_custom_resource_definition decoder request =
    if not (request.old_object == "")
    then decoder.decode_raw request.old_object
    else decoder.decode_raw request.object

groups_of : Request → String
groups_of request = join_with ", " request.groups

authorize_rendered : Request → Result CustomResourceDefinition → Response
authorize_rendered request (fail err) = bad_request err
authorize_rendered request (ok crd) =
    if is_protected_by_resource_name crd.name
    then (if is_allowed_user request
        then answer request (
            allow (
              concat (
                "User '"
                ∷ request.username
                ∷ "' in group(s) '"
                ∷ groups_of request
                ∷ "' can operate on CustomResourceDefinitions"
                ∷ [])))
        else if has_privileged_group request
        then answer request (
            allow (
              concat (
                "Privileged service accounts in group(s) '"
                ∷ groups_of request
                ∷ "' can operate on CustomResourceDefinitions"
                ∷ [])))
        else answer request (
            deny (
              concat (
                "User '" ∷ request.username
                ∷ "' prevented from accessing Red Mat managed resources. This is in an effort to prevent harmful actions that may cause unintended consequences or affect the stability of the cluster. If you have any questions about this, please reach out to Red Hat support at https://access.redhat.com/support"
                ∷ []))))
    else answer request (allow "Non managed CustomResourceDefinition")

pub authorized : Decoder CustomResourceDefinition → Request → Response
unfolding authorize_rendered
authorized decoder request =
    authorize_rendered request (render_custom_resource_definition decoder request)

unfoldable pub validate : Request → Bool
validate request = not (request.username == "") && request.kind == "CustomResourceDefinition"

abbrev pub hook : Decoder CustomResourceDefinition → Webhook
hook decoder = record {
  authorized = λ request. returned (authorized decoder request);
  uri = "/customresourcedefinitions-validation";
  validate = validate;
  name = "customresourcedefinitions-validation";
  failure_policy = "Ignore";
  match_policy = "Equivalent";
  rules = rules;
  object_selector = none;
  side_effects = "None";
  timeout_seconds = 2;
  sync_set_label_selector = default_label_selector;
  classic_enabled = true;
  hypershift_enabled = false;
}

abbrev pub IsAllowed : Request → Type 0
IsAllowed request =
    Member request.username allowed_users
    ⊎ Any (λ group. Member group request.groups) sre_admin_groups

is_allowed_user_iff : (request : Request) → (is_allowed_user request ≡ true) ↔ IsAllowed request
unfolding is_allowed_user
is_allowed_user_iff request = ground (
  arith,
  contains_iff allowed_users request.username,
  any_iff (λ group. contains request.groups group) (contains_iff request.groups) sre_admin_groups,
)

-- A definition that decodes is refused exactly when its name is a protected one and the user is
-- neither allowed by name or group nor a privileged service account.
pub custom_resource_definitions_authorized_iff :
    (decoder : Decoder CustomResourceDefinition) (request : Request)
    (crd : CustomResourceDefinition)
    → render_custom_resource_definition decoder request ≡ ok crd
    → (is_allowed (authorized decoder request).verdict ≡ false) ↔ (
        Member crd.name protected_names
        × ¬ IsAllowed request
        × ¬ Any IsPrivilegedGroup request.groups)
unfolding authorized
custom_resource_definitions_authorized_iff decoder request crd e = ground (
  arith,
  is_protected_by_resource_name_iff crd.name,
  is_allowed_user_iff request,
  has_privileged_group_iff request,
)
