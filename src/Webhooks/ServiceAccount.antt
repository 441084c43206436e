-- ===== src/Webhooks/ServiceAccount.antt =====
-- pkg/webhooks/serviceaccount/serviceaccount.go: service accounts in managed namespaces are not
-- deleted by customers.
use managed_cluster_validati.Base.{
  String, ◌≡◌, ◌≢◌, ◌↔◌, ◌⊎◌, Bool, true, false, not, ◌&&◌, ◌||◌, none, List, [], ◌∷◌, arith, any,
  Any, any_iff, any-eq_iff, contains, contains_iff, Member, ◌==◌, eq_iff, if◌then◌else◌,
}
use managed_cluster_validati.Base.Text.{concat, has_prefix}
use managed_cluster_validati.Admission.{
  delete, is_delete, Request, Response, allow, deny, is_allowed, answer, bad_request, returned,
  Result, ok, fail, Decoder,
}
use managed_cluster_validati.Config.{is_privileged_namespace}
use managed_cluster_validati.Config.Namespaces.{IsPrivilegedNamespace, is_privileged_namespace_iff}
use managed_cluster_validati.Webhook.{Rule, Webhook, default_label_selector}

abbrev rules : List Rule
rules =
    record {
      operations = "DELETE" ∷ [];
      api_groups = "" ∷ [];
      api_versions = "v1" ∷ [];
      resources = "serviceaccounts" ∷ [];
      scope = "Namespaced";
    }
    ∷ []

abbrev pub allowed_users : List String
allowed_users = "backplane-cluster-admin" ∷ []

abbrev pub allowed_groups : List String
allowed_groups = "system:serviceaccounts:openshift-backplane-srep" ∷ []

abbrev pub allowed_service_accounts : List String
allowed_service_accounts = "builder" ∷ "default" ∷ "deployer" ∷ []

abbrev pub exception_namespaces : List String
exception_namespaces =
    "default" ∷ "openshift-logging" ∷ "openshift-user-workload-monitoring" ∷ "openshift-operators"
    ∷ []

pub record ServiceAccount : Type 0 where
  pub name : String

unfoldable pub render_service_account : Decoder ServiceAccount → Request → Result ServiceAccount
render_service_account decoder request =
    if not (request.old_object == "")
    then decoder.decode_raw request.old_object
    else ok (record { name = "" })

is_allowed_user_group : Request → Bool
is_allowed_user_group request =
    contains allowed_users request.username
    || any (λ group. contains request.groups group) allowed_groups

is_protected_namespace : Request → Bool
is_protected_namespace request =
    is_privileged_namespace request.namespace
    && not (contains exception_namespaces request.namespace)

is_allowed_service_account : ServiceAccount → Bool
is_allowed_service_account sa = any (λ s. sa.name == s) allowed_service_accounts

authorize_account : Request → ServiceAccount → Response
authorize_account request sa =
    if (is_protected_namespace request && not (is_allowed_user_group request))
      && (is_delete request.operation && not (is_allowed_service_account sa))
    then answer request (
        deny (
          concat (
            "Deleting protected service account under namespace " ∷ request.namespace
            ∷ " is not allowed" ∷ [])))
    else answer request (allow "Request is allowed")

authorize_rendered : Request → Result ServiceAccount → Response
unfolding authorize_account
authorize_rendered request (fail err) = bad_request err
authorize_rendered request (ok sa) = authorize_account request sa

pub authorized : Decoder ServiceAccount → Request → Response
unfolding authorize_rendered
authorized decoder request =
    if request.username == "system:unauthenticated"
    then answer request (deny "Unauthenticated")
    else if has_prefix request.username "system:"
    then answer request (allow "authenticated system: users are allowed")
    else if has_prefix request.username "kube:"
    then answer request (allow "kube: users are allowed")
    else authorize_rendered request (render_service_account decoder request)

unfoldable pub validate : Request → Bool
validate request = not (request.username == "") && request.kind == "ServiceAccount"

abbrev pub hook : Decoder ServiceAccount → Webhook
hook decoder = record {
  authorized = λ request. returned (authorized decoder request);
  uri = "/serviceaccount-validation";
  validate = validate;
  name = "serviceaccount-validation";
  failure_policy = "Ignore";
  match_policy = "Equivalent";
  rules = rules;
  object_selector = none;
  side_effects = "None";
  timeout_seconds = 2;
  sync_set_label_selector = default_label_selector;
  classic_enabled = true;
  hypershift_enabled = true;
}

abbrev pub IsAllowed : Request → Type 0
IsAllowed request =
    Member request.username allowed_users
    ⊎ Any (λ group. Member group request.groups) allowed_groups

is_allowed_user_group_iff :
    (request : Request) → (is_allowed_user_group request ≡ true) ↔ IsAllowed request
unfolding is_allowed_user_group
is_allowed_user_group_iff request = ground (
  arith,
  contains_iff allowed_users request.username,
  any_iff (λ group. contains request.groups group) (contains_iff request.groups) allowed_groups,
)

is_protected_namespace_iff :
    (request : Request)
    → (is_protected_namespace request ≡ true)
      ↔ (IsPrivilegedNamespace request.namespace × ¬ Member request.namespace exception_namespaces)
unfolding is_protected_namespace
is_protected_namespace_iff request = ground (
  arith,
  is_privileged_namespace_iff request.namespace,
  contains_iff exception_namespaces request.namespace,
)

is_allowed_service_account_iff :
    (sa : ServiceAccount)
    → (is_allowed_service_account sa ≡ true) ↔ Member sa.name allowed_service_accounts
unfolding is_allowed_service_account
is_allowed_service_account_iff sa = any-eq_iff allowed_service_accounts sa.name

abbrev pub IsSystemUser : String → Type 0
IsSystemUser user =
    (user ≢ "system:unauthenticated")
    × ((has_prefix user "system:" ≡ true) ⊎ (has_prefix user "kube:" ≡ true))

-- A request whose old object decodes is refused exactly when its user is unauthenticated, or when
-- it deletes, in a privileged namespace that is no exception, an account that is not one of those
-- every namespace has, and its user is neither one of the cluster's own components nor allowed by
-- name or group.
pub service_account_authorized_iff :
    (decoder : Decoder ServiceAccount) (request : Request) (sa : ServiceAccount)
    → render_service_account decoder request ≡ ok sa
    → (is_allowed (authorized decoder request).verdict ≡ false) ↔ (
        (request.username ≡ "system:unauthenticated")
        ⊎ ((request.operation ≡ delete)
            × IsPrivilegedNamespace request.namespace
            × ¬ Member request.namespace exception_namespaces
            × ¬ Member sa.name allowed_service_accounts
            × ¬ IsSystemUser request.username
            × ¬ IsAllowed request))
unfolding authorized
service_account_authorized_iff decoder request sa e = ground (
  arith,
  eq_iff request.username "system:unauthenticated",
  is_protected_namespace_iff request,
  is_allowed_service_account_iff sa,
  is_allowed_user_group_iff request,
)
