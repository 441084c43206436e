-- ===== src/Webhooks/PrometheusRule.antt =====
-- pkg/webhooks/prometheusrule/prometheusrule.go: customers do not manage rules in managed namespaces.
use managed_cluster_validati.Base.Maps.{Labels, value_of}
use managed_cluster_validati.Base.{
  String, ◌≡◌, ◌≢◌, ◌↔◌, ◌⊎◌, Bool, true, false, not, ◌&&◌, ◌||◌, none, List, [], ◌∷◌, arith, any,
  Any, any_iff, contains, contains_iff, Member, ◌==◌, eq_iff, if◌then◌else◌,
}
use managed_cluster_validati.Admission.{
  Request, Response, allow, deny, is_allowed, answer, bad_request, returned, Result, ok, fail,
  Decoder,
}
use managed_cluster_validati.Utils.{has_privileged_group}
use managed_cluster_validati.Utils.Matching.{IsPrivilegedGroup, has_privileged_group_iff}
use managed_cluster_validati.Config.{is_privileged_namespace}
use managed_cluster_validati.Config.Namespaces.{IsPrivilegedNamespace, is_privileged_namespace_iff}
use managed_cluster_validati.Webhook.{Rule, Webhook, default_label_selector}

abbrev pub allowed_users : List String
allowed_users = "kube:admin" ∷ "system:admin" ∷ "backplane-cluster-admin" ∷ []

abbrev pub sre_admin_groups : List String
sre_admin_groups = "system:serviceaccounts:openshift-backplane-srep" ∷ []

-- The map `privilegedLabels`, as a list of its entries.
abbrev privileged_labels : Labels
privileged_labels = ("app.kubernetes.io/name", "stackrox") ∷ []

abbrev rules : List Rule
rules =
    record {
      operations = "CREATE" ∷ "UPDATE" ∷ "DELETE" ∷ [];
      api_groups = "monitoring.coreos.com" ∷ [];
      api_versions = "*" ∷ [];
      resources = "prometheusrules" ∷ [];
      scope = "Namespaced";
    }
    ∷ []

abbrev pub privileged_namespaces_allowed : List String
privileged_namespaces_allowed =
    "openshift-customer-monitoring" ∷ "openshift-user-workload-monitoring" ∷ []

pub record PrometheusRule : Type 0 where
  pub namespace : String
  pub labels : Labels

unfoldable pub render_prometheus_rule : Decoder PrometheusRule → Request → Result PrometheusRule
render_prometheus_rule decoder request =
    if not (request.old_object == "")
    then decoder.decode_raw request.old_object
    else decoder.decode_raw request.object

is_allowed_user : Request → Bool
is_allowed_user request =
    contains allowed_users request.username
    || any (λ group. contains request.groups group) sre_admin_groups

has_privileged_label : PrometheusRule → Bool
has_privileged_label pr = any (λ entry. value_of entry.0 pr.labels == entry.1) privileged_labels

authorize_rule : Request → PrometheusRule → Response
authorize_rule request pr =
    if is_privileged_namespace pr.namespace
      && not (contains privileged_namespaces_allowed pr.namespace)
    then (if is_allowed_user request
        then answer request (allow "User can do operations on PrometheusRules")
        else if has_privileged_group request
        then answer request (allow "Privileged service accounts do operations on PrometheusRules")
        else if has_privileged_label pr
        then answer request (allow "PrometheusRules with privileged labels can be modified")
        else answer request (
            deny
              "Prevented from accessing Red Hat managed resources. This is in an effort to prevent harmful actions that may cause unintended consequences or affect the stability of the cluster. If you have any questions about this, please reach out to Red Hat support at https://access.redhat.com/support"))
    else answer request (allow "Non managed namespace")

authorize_rendered : Request → Result PrometheusRule → Response
unfolding authorize_rule
authorize_rendered request (fail err) = bad_request err
authorize_rendered request (ok pr) = authorize_rule request pr

pub authorized : Decoder PrometheusRule → Request → Response
unfolding authorize_rendered
authorized decoder request = authorize_rendered request (render_prometheus_rule decoder request)

unfoldable pub validate : Request → Bool
validate request = not (request.username == "") && request.kind == "PrometheusRule"

abbrev pub hook : Decoder PrometheusRule → Webhook
hook decoder = record {
  authorized = λ request. returned (authorized decoder request);
  uri = "/prometheusrule-validation";
  validate = validate;
  name = "prometheusrule-validation";
  failure_policy = "Ignore";
  match_policy = "Equivalent";
  rules = rules;
  object_selector = none;
  side_effects = "None";
  timeout_seconds = 2;
  sync_set_label_selector = default_label_selector;
  classic_enabled = true;
  hypershift_enabled = false;
}

abbrev pub IsAllowed : Request → Type 0
IsAllowed request =
    Member request.username allowed_users
    ⊎ Any (λ group. Member group request.groups) sre_admin_groups

is_allowed_user_iff : (request : Request) → (is_allowed_user request ≡ true) ↔ IsAllowed request
unfolding is_allowed_user
is_allowed_user_iff request = ground (
  arith,
  contains_iff allowed_users request.username,
  any_iff (λ group. contains request.groups group) (contains_iff request.groups) sre_admin_groups,
)

has_privileged_label_iff :
    (pr : PrometheusRule)
    → (has_privileged_label pr ≡ true) ↔ (value_of "app.kubernetes.io/name" pr.labels ≡ "stackrox")
unfolding has_privileged_label any
has_privileged_label_iff pr =
    ground (arith, eq_iff (value_of "app.kubernetes.io/name" pr.labels) "stackrox")

-- A rule that decodes is refused exactly when its namespace is privileged, with the two monitoring
-- namespaces of the customer as exceptions, and the user is not allowed by name or group, is no
-- privileged service account, and the rule does not carry the label of stackrox.
pub prometheus_rule_authorized_iff :
    (decoder : Decoder PrometheusRule) (request : Request) (pr : PrometheusRule)
    → render_prometheus_rule decoder request ≡ ok pr
    → (is_allowed (authorized decoder request).verdict ≡ false) ↔ (
        IsPrivilegedNamespace pr.namespace
        × ¬ Member pr.namespace privileged_namespaces_allowed
        × ¬ IsAllowed request
        × ¬ Any IsPrivilegedGroup request.groups
        × (value_of "app.kubernetes.io/name" pr.labels ≢ "stackrox"))
unfolding authorized
prometheus_rule_authorized_iff decoder request pr e = ground (
  arith,
  is_privileged_namespace_iff pr.namespace,
  contains_iff privileged_namespaces_allowed pr.namespace,
  is_allowed_user_iff request,
  has_privileged_group_iff request,
  has_privileged_label_iff pr,
)
