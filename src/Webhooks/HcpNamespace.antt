-- ===== src/Webhooks/HcpNamespace.antt =====
-- pkg/webhooks/hcpnamespace/hcpnamespace.go: namespaces of hosted control planes are deleted by
-- their operators only.
use managed_cluster_validati.Base.{
  String, ◌≡◌, ◌↔◌, Bool, true, false, not, ◌&&◌, none, List, [], ◌∷◌, arith, any, Any, contains,
  contains_iff, Member, ◌==◌, if◌then◌else◌,
}
use managed_cluster_validati.Base.Text.{concat, has_prefix}
use managed_cluster_validati.Regex.{Regex, starting, match}
use managed_cluster_validati.Regex.Shapes.{match-starting}
use managed_cluster_validati.Admission.{
  delete, is_delete, Request, Response, allow, deny, is_allowed, answer, returned,
}
use managed_cluster_validati.Webhook.{Rule, LabelSelector, Webhook, default_label_selector}

abbrev pub allowed_users : List String
allowed_users =
    "system:admin" ∷ "system:serviceaccount:open-cluster-management-agent:klusterlet-work-sa"
    ∷ "system:serviceaccount:open-cluster-management-agent:klusterlet"
    ∷ "system:serviceaccount:hypershift:operator" ∷ "system:serviceaccount:ocm:ocm"
    ∷ "system:serviceaccount:kube-system:namespace-controller" ∷ []

-- ^ocm-staging-.*, ^ocm-production-.*, ^ocm-integration-.*, ^klusterlet-.*, ^hs-mc-.*
abbrev protected_namespace_patterns : List Regex
protected_namespace_patterns =
    starting "ocm-staging-"
    ∷ starting "ocm-production-"
    ∷ starting "ocm-integration-"
    ∷ starting "klusterlet-"
    ∷ starting "hs-mc-"
    ∷ []

abbrev rules : List Rule
rules =
    record {
      operations = "DELETE" ∷ [];
      api_groups = "" ∷ [];
      api_versions = "*" ∷ [];
      resources = "namespaces" ∷ [];
      scope = "Cluster";
    }
    ∷ []

is_protected_namespace : String → Bool
is_protected_namespace namespace_name =
    any (λ re. match re namespace_name) protected_namespace_patterns

pub authorized : Request → Response
authorized request =
    if contains allowed_users request.username
    then answer request (allow "User/ServiceAccount is authorized to delete HCP namespaces")
    else if not (is_protected_namespace request.name)
    then answer request (allow "Namespace is not protected")
    else if not (is_delete request.operation)
    then answer request (allow "Only DELETE operations are restricted")
    else answer request (
        deny (
          concat (
            "Only authorized users/service accounts can delete this namespace " ∷ request.name
            ∷ [])))

unfoldable pub validate : Request → Bool
validate request = not (request.username == "") && request.kind == "Namespace"

abbrev sync_set_label_selector : LabelSelector
sync_set_label_selector = record {
  match_labels = default_label_selector.match_labels;
  match_expressions =
      record {
        key = "ext-hypershift.openshift.io/cluster-type";
        operator = "In";
        values = "management-cluster" ∷ "service-cluster" ∷ [];
      }
      ∷ [];
}

abbrev pub hook : Webhook
hook = record {
  authorized = λ request. returned (authorized request);
  uri = "/hcpnamespace-validation";
  validate = validate;
  name = "hcpnamespace-validation";
  failure_policy = "Ignore";
  match_policy = "Equivalent";
  rules = rules;
  object_selector = none;
  side_effects = "None";
  timeout_seconds = 2;
  sync_set_label_selector = sync_set_label_selector;
  classic_enabled = true;
  hypershift_enabled = false;
}

abbrev pub protected_prefixes : List String
protected_prefixes =
    "ocm-staging-" ∷ "ocm-production-" ∷ "ocm-integration-" ∷ "klusterlet-" ∷ "hs-mc-" ∷ []

is_protected_namespace_iff :
    (ns : String)
    → (is_protected_namespace ns ≡ true)
      ↔ Any (λ prefix. has_prefix ns prefix ≡ true) protected_prefixes
unfolding is_protected_namespace any
is_protected_namespace_iff ns = ground (
  arith,
  match-starting "ocm-staging-" ns,
  match-starting "ocm-production-" ns,
  match-starting "ocm-integration-" ns,
  match-starting "klusterlet-" ns,
  match-starting "hs-mc-" ns,
)

-- A request is refused exactly when it deletes a namespace with one of the protected prefixes and
-- its user is not listed.
pub hcp_namespace_authorized_iff :
    (request : Request)
    → (is_allowed (authorized request).verdict ≡ false) ↔ (
        (request.operation ≡ delete)
        × Any (λ prefix. has_prefix request.name prefix ≡ true) protected_prefixes
        × ¬ Member request.username allowed_users)
unfolding authorized
hcp_namespace_authorized_iff request =
    ground
      (arith, contains_iff allowed_users request.username, is_protected_namespace_iff request.name)
