-- ===== src/Webhooks/ClusterRoleBinding.antt =====
-- pkg/webhooks/clusterrolebinding/clusterrolebinding.go: bindings of managed service accounts are
-- not deleted by customers.
use managed_cluster_validati.Base.{
  String, ◌≡◌, ◌≢◌, ◌↔◌, ◌⊎◌, Bool, true, false, not, ◌&&◌, ◌||◌, none, List, [], ◌∷◌, arith, any,
  Any, any_iff, contains, contains_iff, Member, ◌==◌, eq_iff, if◌then◌else◌,
}
use managed_cluster_validati.Base.Text.{concat, has_prefix, has_substring}
use managed_cluster_validati.Regex.{Regex, alt, chars, starting, match}
use managed_cluster_validati.Regex.Shapes.{match-starting, match-alt, match-chars}
use managed_cluster_validati.Admission.{
  delete, Request, Response, allow, deny, is_allowed, answer, bad_request, returned, Result, ok,
  fail, Decoder,
}
use managed_cluster_validati.Webhook.{Rule, Webhook, default_label_selector}

-- (^openshift-.*|kube-system)
abbrev pub protected_namespaces : Regex
protected_namespaces = alt (starting "openshift-") (chars "kube-system")

abbrev rules : List Rule
rules =
    record {
      operations = "DELETE" ∷ [];
      api_groups = "rbac.authorization.k8s.io" ∷ [];
      api_versions = "v1" ∷ [];
      resources = "clusterrolebindings" ∷ [];
      scope = "Cluster";
    }
    ∷ []

abbrev pub exception_namespaces : List String
exception_namespaces =
    "openshift-logging" ∷ "openshift-user-workload-monitoring" ∷ "openshift-operators"
    ∷ "openshift-backplane-managed-scripts" ∷ "openshift-gitops" ∷ []

abbrev pub allowed_users : List String
allowed_users = "backplane-cluster-admin" ∷ []

abbrev pub allowed_groups : List String
allowed_groups = "system:serviceaccounts:openshift-backplane-srep" ∷ []

pub record Subject : Type 0 where
  pub kind : String
  pub namespace : String

-- The value of the annotation `oc.openshift.io/command`, empty where it is absent.
pub record ClusterRoleBinding : Type 0 where
  pub name : String
  pub command : String
  pub subjects : List Subject

unfoldable pub render_cluster_role_binding :
    Decoder ClusterRoleBinding → Request → Result ClusterRoleBinding
render_cluster_role_binding decoder request =
    if not (request.old_object == "")
    then decoder.decode_raw request.old_object
    else ok (record { name = ""; command = ""; subjects = [] })

is_allowed_user_group : Request → Bool
is_allowed_user_group request =
    contains allowed_users request.username
    || any (λ group. contains request.groups group) allowed_groups

is_protected_subject : Subject → Bool
is_protected_subject subject =
    subject.kind == "ServiceAccount"
    && (match protected_namespaces subject.namespace
        && not (contains exception_namespaces subject.namespace))

is_protected_namespace : ClusterRoleBinding → Bool
unfolding is_protected_subject
is_protected_namespace binding = any is_protected_subject binding.subjects

authorize_delete : Request → ClusterRoleBinding → Response
authorize_delete request binding =
    if binding.command == "oc adm must-gather" && request.username == "cluster-admin"
    then answer request (allow "cluster-admin: cluster-admin may manage must-gather resources")
    else answer request
        (deny (concat ("Deleting ClusterRoleBinding " ∷ binding.name ∷ " is not allowed" ∷ [])))

authorize_binding : Request → ClusterRoleBinding → Response
unfolding authorize_delete
authorize_binding request binding =
    if is_protected_namespace binding && not (is_allowed_user_group request)
    then elim request.operation [
      | delete ↦ authorize_delete request binding
      | _ ↦ answer request (allow "Request is allowed")
    ]
    else answer request (allow "Request is allowed")

authorize_rendered : Request → Result ClusterRoleBinding → Response
unfolding authorize_binding
authorize_rendered request (fail err) = bad_request err
authorize_rendered request (ok binding) = authorize_binding request binding

pub authorized : Decoder ClusterRoleBinding → Request → Response
unfolding authorize_rendered
authorized decoder request =
    if request.username == "system:unauthenticated"
    then answer request (deny "Unauthenticated")
    else if has_prefix request.username "system:"
    then answer request (allow "authenticated system: users are allowed")
    else if has_prefix request.username "kube:"
    then answer request (allow "kube: users are allowed")
    else authorize_rendered request (render_cluster_role_binding decoder request)

unfoldable pub validate : Request → Bool
validate request = not (request.username == "") && request.kind == "ClusterRoleBinding"

abbrev pub hook : Decoder ClusterRoleBinding → Webhook
hook decoder = record {
  authorized = λ request. returned (authorized decoder request);
  uri = "/clusterrolebindings-validation";
  validate = validate;
  name = "clusterrolebindings-validation";
  failure_policy = "Ignore";
  match_policy = "Equivalent";
  rules = rules;
  object_selector = none;
  side_effects = "None";
  timeout_seconds = 2;
  sync_set_label_selector = default_label_selector;
  classic_enabled = true;
  hypershift_enabled = true;
}

-- A service account in a namespace that begins with `openshift-`, or has `kube-system` anywhere in
-- its name, and is no exception.
abbrev pub IsManagedAccount : Subject → Type 0
IsManagedAccount subject =
    (subject.kind ≡ "ServiceAccount")
    × ((has_prefix subject.namespace "openshift-" ≡ true)
        ⊎ (has_substring subject.namespace "kube-system" ≡ true))
    × ¬ Member subject.namespace exception_namespaces

is_protected_subject_iff :
    (subject : Subject) → (is_protected_subject subject ≡ true) ↔ IsManagedAccount subject
unfolding is_protected_subject
is_protected_subject_iff subject = ground (
  arith,
  eq_iff subject.kind "ServiceAccount",
  match-alt (starting "openshift-") (chars "kube-system") subject.namespace,
  match-starting "openshift-" subject.namespace,
  match-chars "kube-system" subject.namespace,
  contains_iff exception_namespaces subject.namespace,
)

is_protected_namespace_iff :
    (binding : ClusterRoleBinding)
    → (is_protected_namespace binding ≡ true) ↔ Any IsManagedAccount binding.subjects
unfolding is_protected_namespace
is_protected_namespace_iff binding =
    any_iff is_protected_subject is_protected_subject_iff binding.subjects

abbrev pub IsAllowed : Request → Type 0
IsAllowed request =
    Member request.username allowed_users
    ⊎ Any (λ group. Member group request.groups) allowed_groups

is_allowed_user_group_iff :
    (request : Request) → (is_allowed_user_group request ≡ true) ↔ IsAllowed request
unfolding is_allowed_user_group
is_allowed_user_group_iff request = ground (
  arith,
  contains_iff allowed_users request.username,
  any_iff (λ group. contains request.groups group) (contains_iff request.groups) allowed_groups,
)

abbrev pub IsSystemUser : String → Type 0
IsSystemUser user =
    (user ≢ "system:unauthenticated")
    × ((has_prefix user "system:" ≡ true) ⊎ (has_prefix user "kube:" ≡ true))

abbrev pub IsMustGather : Request → ClusterRoleBinding → Type 0
IsMustGather request binding =
    (binding.command ≡ "oc adm must-gather") × (request.username ≡ "cluster-admin")

-- A request whose old object decodes is refused exactly when its user is unauthenticated, or when
-- it deletes a binding of a managed service account, its user is neither one of the cluster's own
-- components nor allowed by name or group, and it does not clean up after must-gather.
pub cluster_role_binding_authorized_iff :
    (decoder : Decoder ClusterRoleBinding) (request : Request) (binding : ClusterRoleBinding)
    → render_cluster_role_binding decoder request ≡ ok binding
    → (is_allowed (authorized decoder request).verdict ≡ false) ↔ (
        (request.username ≡ "system:unauthenticated")
        ⊎ ((request.operation ≡ delete)
            × Any IsManagedAccount binding.subjects
            × ¬ IsSystemUser request.username
            × ¬ IsAllowed request
            × ¬ IsMustGather request binding))
unfolding authorized
cluster_role_binding_authorized_iff decoder request binding e = ground (
  arith,
  eq_iff request.username "system:unauthenticated",
  eq_iff request.username "cluster-admin",
  eq_iff binding.command "oc adm must-gather",
  is_protected_namespace_iff binding,
  is_allowed_user_group_iff request,
)
