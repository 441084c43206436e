-- ===== src/Webhooks/NetworkPolicies.antt =====
-- pkg/webhooks/networkpolicies/networkpolicies.go: customers do not manage network policies in
-- managed namespaces, nor those of the default ingress.
use managed_cluster_validati.Base.Maps.{Labels, lookup}
use managed_cluster_validati.Base.{
  String, ◌≡◌, ◌≢◌, ◌↔◌, ◌⊎◌, Bool, true, false, not, ◌&&◌, ◌||◌, Option, none, some, List, [], ◌∷◌,
  arith, any, Any, any_iff, contains, contains_iff, Member, ◌==◌, eq_iff, if◌then◌else◌,
}
use managed_cluster_validati.Base.Text.{concat, join_with}
use managed_cluster_validati.Admission.{
  Request, Response, allow, deny, is_allowed, answer, bad_request, returned, Result, ok, fail,
  Decoder,
}
use managed_cluster_validati.Utils.{has_privileged_group}
use managed_cluster_validati.Utils.Matching.{IsPrivilegedGroup, has_privileged_group_iff}
use managed_cluster_validati.Config.{is_privileged_namespace}
use managed_cluster_validati.Config.Namespaces.{IsPrivilegedNamespace, is_privileged_namespace_iff}
use managed_cluster_validati.Webhook.{Rule, Webhook, default_label_selector}

abbrev pub allowed_users : List String
allowed_users = "system:admin" ∷ "backplane-cluster-admin" ∷ []

abbrev pub sre_admin_groups : List String
sre_admin_groups = "system:serviceaccounts:openshift-backplane-srep" ∷ []

abbrev rules : List Rule
rules =
    record {
      operations = "CREATE" ∷ "UPDATE" ∷ "DELETE" ∷ [];
      api_groups = "networking.k8s.io" ∷ [];
      api_versions = "*" ∷ [];
      resources = "networkpolicies" ∷ [];
      scope = "Namespaced";
    }
    ∷ []

abbrev pub ingress_label : String
ingress_label = "ingresscontroller.operator.openshift.io/deployment-ingresscontroller"

-- `match_labels` are those of the pod selector.
pub record NetworkPolicy : Type 0 where
  pub namespace : String
  pub match_labels : Labels

-- The new object, if there is one, and the old one if not.
unfoldable pub render_network_policy : Decoder NetworkPolicy → Request → Result NetworkPolicy
render_network_policy decoder request =
    if not (request.object == "")
    then decoder.decode_raw request.object
    else decoder.decode_raw request.old_object

is_allowed_namespace : String → Bool
is_allowed_namespace namespace =
    not (is_privileged_namespace namespace) || namespace == "openshift-ingress"

is_allowed_user : Request → Bool
is_allowed_user request =
    contains allowed_users request.username
    || any (λ group. contains request.groups group) sre_admin_groups

groups_of : Request → String
groups_of request = join_with ", " request.groups

-- `!labelFound || ingressName == "default"`
may_affect_default_ingress : Option String → Bool
may_affect_default_ingress none = true
may_affect_default_ingress (some ingress_name) = ingress_name == "default"

authorize_managed : Request → Response
authorize_managed request =
    if is_allowed_user request
    then answer request (
        allow (
          concat (
            "User '"
            ∷ request.username
            ∷ "' in group(s) '"
            ∷ groups_of request
            ∷ "' can operate on NetworkPolicies"
            ∷ [])))
    else if has_privileged_group request
    then answer request (
        allow (
          concat (
            "Privileged service accounts in group(s) '"
            ∷ groups_of request
            ∷ "' can operate on NetworkPolicies"
            ∷ [])))
    else answer request (
        deny (
          concat (
            "User '" ∷ request.username
            ∷ "' prevented from accessing Red Mat managed resources. This is in an effort to prevent harmful actions that may cause unintended consequences or affect the stability of the cluster. If you have any questions about this, please reach out to Red Hat support at https://access.redhat.com/support"
            ∷ [])))

authorize_ingress : Request → NetworkPolicy → Response
unfolding may_affect_default_ingress
authorize_ingress request np =
    if has_privileged_group request
    then answer request (
        allow (
          concat (
            "Privileged service accounts in group(s) '"
            ∷ groups_of request
            ∷ "' can operate on NetworkPolicies in openshift-ingress"
            ∷ [])))
    else if may_affect_default_ingress (lookup ingress_label np.match_labels)
    then answer request (
        deny (
          concat (
            "User '" ∷ request.username
            ∷ "' prevented from creating network policy that may impact default ingress, which is managed by Red Hat. This is in an effort to prevent harmful actions that may cause unintended consequences or affect the stability of the cluster. If you have any questions about this, please reach out to Red Hat support at https://access.redhat.com/support"
            ∷ [])))
    else answer request (allow "Non managed namespace")

authorize_rendered : Request → Result NetworkPolicy → Response
unfolding authorize_managed authorize_ingress
authorize_rendered request (fail err) = bad_request err
authorize_rendered request (ok np) =
    if not (is_allowed_namespace np.namespace)
    then authorize_managed request
    else if np.namespace == "openshift-ingress"
    then authorize_ingress request np
    else answer request (allow "Non managed namespace")

pub authorized : Decoder NetworkPolicy → Request → Response
unfolding authorize_rendered
authorized decoder request = authorize_rendered request (render_network_policy decoder request)

unfoldable pub validate : Request → Bool
validate request = not (request.username == "") && request.kind == "NetworkPolicy"

abbrev pub hook : Decoder NetworkPolicy → Webhook
hook decoder = record {
  authorized = λ request. returned (authorized decoder request);
  uri = "/networkpolicies-validation";
  validate = validate;
  name = "networkpolicies-validation";
  failure_policy = "Ignore";
  match_policy = "Equivalent";
  rules = rules;
  object_selector = none;
  side_effects = "None";
  timeout_seconds = 2;
  sync_set_label_selector = default_label_selector;
  classic_enabled = true;
  hypershift_enabled = false;
}

abbrev pub IsAllowed : Request → Type 0
IsAllowed request =
    Member request.username allowed_users
    ⊎ Any (λ group. Member group request.groups) sre_admin_groups

is_allowed_user_iff : (request : Request) → (is_allowed_user request ≡ true) ↔ IsAllowed request
unfolding is_allowed_user
is_allowed_user_iff request = ground (
  arith,
  contains_iff allowed_users request.username,
  any_iff (λ group. contains request.groups group) (contains_iff request.groups) sre_admin_groups,
)

-- The policy may select the pods of the default ingress controller.
abbrev pub MayAffectDefaultIngress : NetworkPolicy → Type 0
MayAffectDefaultIngress np =
    (lookup ingress_label np.match_labels ≡ none)
    ⊎ (lookup ingress_label np.match_labels ≡ some "default")

may_affect_default_ingress_iff :
    (o : Option String)
    → (may_affect_default_ingress o ≡ true) ↔ ((o ≡ none) ⊎ (o ≡ some "default"))
unfolding may_affect_default_ingress
may_affect_default_ingress_iff none = ground arith
may_affect_default_ingress_iff (some name) = ground (arith, eq_iff name "default")

-- A policy that decodes, of a user who is no privileged service account, is refused exactly when
-- it stands in `openshift-ingress` and may affect the default ingress, or in another privileged
-- namespace and the user is not allowed by name or group. Privileged service accounts are never
-- refused.
pub network_policies_authorized_iff :
    (decoder : Decoder NetworkPolicy) (request : Request) (np : NetworkPolicy)
    → render_network_policy decoder request ≡ ok np
    → (is_allowed (authorized decoder request).verdict ≡ false) ↔ (
        ¬ Any IsPrivilegedGroup request.groups
        × (((np.namespace ≡ "openshift-ingress") × MayAffectDefaultIngress np)
            ⊎ ((np.namespace ≢ "openshift-ingress")
                × IsPrivilegedNamespace np.namespace
                × ¬ IsAllowed request)))
unfolding authorized is_allowed_namespace
network_policies_authorized_iff decoder request np e = ground (
  arith,
  eq_iff np.namespace "openshift-ingress",
  is_privileged_namespace_iff np.namespace,
  is_allowed_user_iff request,
  has_privileged_group_iff request,
  may_affect_default_ingress_iff (lookup ingress_label np.match_labels),
)
