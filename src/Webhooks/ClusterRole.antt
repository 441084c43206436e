-- ===== src/Webhooks/ClusterRole.antt =====
-- pkg/webhooks/clusterrole/clusterrole.go: protected ClusterRoles are not deleted by customers.
use managed_cluster_validati.Base.{
  String, ◌≡◌, ◌≢◌, ◌↔◌, ◌⊎◌, Bool, true, false, not, ◌&&◌, ◌||◌, none, List, [], ◌∷◌, arith, any,
  Any, any_iff, contains, contains_iff, Member, ◌==◌, eq_iff, if◌then◌else◌,
}
use managed_cluster_validati.Base.Text.{concat, has_prefix}
use managed_cluster_validati.Admission.{
  delete, Request, Response, allow, deny, is_allowed, answer, bad_request, returned, Result, ok,
  fail, Decoder,
}
use managed_cluster_validati.Webhook.{Rule, Webhook, default_label_selector}

abbrev rules : List Rule
rules =
    record {
      operations = "DELETE" ∷ [];
      api_groups = "rbac.authorization.k8s.io" ∷ [];
      api_versions = "v1" ∷ [];
      resources = "clusterroles" ∷ [];
      scope = "Cluster";
    }
    ∷ []

-- The ClusterRoles that are protected by name.
abbrev pub protected_cluster_roles : List String
protected_cluster_roles =
    "cluster-admin" ∷ "view" ∷ "edit" ∷ "admin" ∷ "system:admin" ∷ "system:node"
    ∷ "system:kube-scheduler" ∷ "system:kube-controller-manager" ∷ []

abbrev pub allowed_users : List String
allowed_users = "backplane-cluster-admin" ∷ []

abbrev pub allowed_groups : List String
allowed_groups = "system:serviceaccounts:openshift-backplane-srep" ∷ []

pub record ClusterRole : Type 0 where
  pub name : String

-- Without an old object there is nothing to decode, and the name stays empty.
unfoldable pub render_cluster_role : Decoder ClusterRole → Request → Result ClusterRole
render_cluster_role decoder request =
    if not (request.old_object == "")
    then decoder.decode_raw request.old_object
    else ok (record { name = "" })

is_allowed_user_group : Request → Bool
is_allowed_user_group request =
    contains allowed_users request.username
    || any (λ group. contains request.groups group) allowed_groups

is_protected_cluster_role : ClusterRole → Bool
is_protected_cluster_role role =
    contains protected_cluster_roles role.name || has_prefix role.name "backplane-"

authorize_role : Request → ClusterRole → Response
authorize_role request role =
    if is_protected_cluster_role role && not (is_allowed_user_group request)
    then elim request.operation [
      | delete ↦
          answer request
            (deny (concat ("Deleting ClusterRole " ∷ role.name ∷ " is not allowed" ∷ [])))
      | _ ↦ answer request (allow "Request is allowed")
    ]
    else answer request (allow "Request is allowed")

authorize_rendered : Request → Result ClusterRole → Response
unfolding authorize_role
authorize_rendered request (fail err) = bad_request err
authorize_rendered request (ok role) = authorize_role request role

pub authorized : Decoder ClusterRole → Request → Response
unfolding authorize_rendered
authorized decoder request =
    if request.username == "system:unauthenticated"
    then answer request (deny "Unauthenticated")
    else if has_prefix request.username "system:" && not (request.username == "system:admin")
    then answer request (allow "authenticated system: users are allowed")
    else if has_prefix request.username "kube:"
    then answer request (allow "kube: users are allowed")
    else authorize_rendered request (render_cluster_role decoder request)

unfoldable pub validate : Request → Bool
validate request = not (request.username == "") && request.kind == "ClusterRole"

abbrev pub hook : Decoder ClusterRole → Webhook
hook decoder = record {
  authorized = λ request. returned (authorized decoder request);
  uri = "/clusterroles-validation";
  validate = validate;
  name = "clusterroles-validation";
  failure_policy = "Ignore";
  match_policy = "Equivalent";
  rules = rules;
  object_selector = none;
  side_effects = "None";
  timeout_seconds = 2;
  sync_set_label_selector = default_label_selector;
  classic_enabled = true;
  hypershift_enabled = true;
}

-- Users of the cluster's own components, and no customers.
abbrev pub IsSystemUser : String → Type 0
IsSystemUser user =
    ((has_prefix user "system:" ≡ true)
      × (user ≢ "system:admin")
      × (user ≢ "system:unauthenticated"))
    ⊎ (has_prefix user "kube:" ≡ true)

abbrev pub IsProtected : ClusterRole → Type 0
IsProtected role =
    Member role.name protected_cluster_roles ⊎ (has_prefix role.name "backplane-" ≡ true)

abbrev pub IsAllowed : Request → Type 0
IsAllowed request =
    Member request.username allowed_users
    ⊎ Any (λ group. Member group request.groups) allowed_groups

is_allowed_user_group_iff :
    (request : Request) → (is_allowed_user_group request ≡ true) ↔ IsAllowed request
unfolding is_allowed_user_group
is_allowed_user_group_iff request = ground (
  arith,
  contains_iff allowed_users request.username,
  any_iff (λ group. contains request.groups group) (contains_iff request.groups) allowed_groups,
)

is_protected_cluster_role_iff :
    (role : ClusterRole) → (is_protected_cluster_role role ≡ true) ↔ IsProtected role
unfolding is_protected_cluster_role
is_protected_cluster_role_iff role = ground (arith, contains_iff protected_cluster_roles role.name)

-- A request whose old object decodes is refused exactly when its user is unauthenticated, or when
-- it deletes a protected ClusterRole and its user is neither one of the cluster's own components
-- nor allowed by name or group.
pub cluster_role_authorized_iff :
    (decoder : Decoder ClusterRole) (request : Request) (role : ClusterRole)
    → render_cluster_role decoder request ≡ ok role
    → (is_allowed (authorized decoder request).verdict ≡ false) ↔ (
        (request.username ≡ "system:unauthenticated")
        ⊎ ((request.operation ≡ delete)
            × IsProtected role
            × ¬ IsSystemUser request.username
            × ¬ IsAllowed request))
unfolding authorized
cluster_role_authorized_iff decoder request role e = ground (
  arith,
  eq_iff request.username "system:unauthenticated",
  eq_iff request.username "system:admin",
  is_protected_cluster_role_iff role,
  is_allowed_user_group_iff request,
)
