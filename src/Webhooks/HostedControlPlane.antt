-- ===== src/Webhooks/HostedControlPlane.antt =====
-- pkg/webhooks/hostedcontrolplane/hostedcontrolplane.go: some service accounts delete
-- HostedControlPlanes.
use managed_cluster_validati.Base.{
  String, ◌≡◌, ◌↔◌, ◌⊎◌, Bool, true, false, not, ◌&&◌, Option, none, some, List, [], ◌∷◌, ◌++◌,
  arith, any, any-eq_iff, contains, Member, ◌==◌, eq_iff, if◌then◌else◌,
}
use managed_cluster_validati.Base.Text.{concat, split, join_with}
use managed_cluster_validati.Admission.{
  delete, is_delete, Request, Response, allow, deny, is_allowed, answer, returned,
}
use managed_cluster_validati.Webhook.{Rule, LabelSelector, Webhook, default_label_selector}

-- Full usernames of service accounts allowed to delete HostedControlPlanes.
abbrev pub allowed_service_accounts_usernames : List String
allowed_service_accounts_usernames =
    "system:serviceaccount:open-cluster-management-agent:klusterlet-work-sa"
    ∷ "system:serviceaccount:kube-system:generic-garbage-collector"
    ∷ "system:serviceaccount:hypershift:operator" ∷ []

-- Names of service accounts allowed to delete HostedControlPlanes.
abbrev pub allowed_service_accounts_names : List String
allowed_service_accounts_names = "cluster-api" ∷ "control-plane-pki-operator" ∷ []

abbrev rules : List Rule
rules =
    record {
      operations = "DELETE" ∷ [];
      api_groups = "hypershift.openshift.io" ∷ [];
      api_versions = "*" ∷ [];
      resources = "hostedcontrolplanes" ∷ [];
      scope = "Namespaced";
    }
    ∷ []

-- `xs[len(xs)-1]`, where there is one.
pub last_of : List String → Option String
last_of [] = none
last_of (x ∷ []) = some x
last_of (_ ∷ y ∷ xs) = last_of (y ∷ xs)

is_allowed_name : Option String → Bool
is_allowed_name none = false
is_allowed_name (some sa_name) = contains allowed_service_accounts_names sa_name

pub authorized : Request → Response
unfolding is_allowed_name
authorized request =
    if any (λ sa. request.username == sa) allowed_service_accounts_usernames
    then answer request
        (allow "Service account is authorized to delete HostedControlPlane resources")
    else if is_allowed_name (last_of (split b':' request.username))
    then answer request
        (allow "Service account is authorized to delete HostedControlPlane resources")
    else if not (is_delete request.operation)
    then answer request (allow "Only DELETE operations are restricted")
    else answer request (
        deny (
          concat (
            "Only authorized service accounts "
            ∷ join_with ", " (allowed_service_accounts_usernames ++ allowed_service_accounts_names)
            ∷ " can delete HostedControlPlane resources"
            ∷ [])))

unfoldable pub validate : Request → Bool
validate request =
    not (request.username == "")
    && (request.kind == "HostedControlPlane" && request.group == "hypershift.openshift.io")

abbrev sync_set_label_selector : LabelSelector
sync_set_label_selector = record {
  match_labels = default_label_selector.match_labels;
  match_expressions =
      record {
        key = "ext-hypershift.openshift.io/cluster-type";
        operator = "In";
        values = "management-cluster" ∷ [];
      }
      ∷ [];
}

abbrev pub hook : Webhook
hook = record {
  authorized = λ request. returned (authorized request);
  uri = "/hostedcontrolplane-validation";
  validate = validate;
  name = "hostedcontrolplane-validation";
  failure_policy = "Ignore";
  match_policy = "Equivalent";
  rules = rules;
  object_selector = none;
  side_effects = "None";
  timeout_seconds = 2;
  sync_set_label_selector = sync_set_label_selector;
  classic_enabled = true;
  hypershift_enabled = false;
}

-- The last part of the username, between its colons.
abbrev pub HasName : String → String → Type 0
HasName name user = last_of (split b':' user) ≡ some name

is_allowed_name_iff :
    (o : Option String)
    → (is_allowed_name o ≡ true)
      ↔ ((o ≡ some "cluster-api") ⊎ (o ≡ some "control-plane-pki-operator"))
unfolding is_allowed_name contains
is_allowed_name_iff none = ground arith
is_allowed_name_iff (some name) =
    ground (arith, eq_iff name "cluster-api", eq_iff name "control-plane-pki-operator")

-- A request is refused exactly when it is a deletion and its user is neither one of the listed
-- accounts nor named `cluster-api` or `control-plane-pki-operator` in some namespace.
pub hosted_control_plane_authorized_iff :
    (request : Request)
    → (is_allowed (authorized request).verdict ≡ false) ↔ (
        (request.operation ≡ delete)
        × ¬ Member request.username allowed_service_accounts_usernames
        × ¬ HasName "cluster-api" request.username
        × ¬ HasName "control-plane-pki-operator" request.username)
unfolding authorized
hosted_control_plane_authorized_iff request = ground (
  arith,
  any-eq_iff allowed_service_accounts_usernames request.username,
  is_allowed_name_iff (last_of (split b':' request.username)),
)
