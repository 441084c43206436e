-- ===== src/Webhooks/HiveOwnership.antt =====
-- pkg/webhooks/hiveownership/hiveownership.go: resources that Hive manages are not changed by
-- customers. The label is asked for by the selector, not by the code.
use managed_cluster_validati.Base.{
  String, ◌≡◌, ◌↔◌, ◌⊎◌, Bool, true, false, not, some, List, [], ◌∷◌, arith, any, Any, any_iff,
  contains, contains_iff, Member, ◌==◌, if◌then◌else◌,
}
use managed_cluster_validati.Admission.{
  Request, Response, allow, deny, is_allowed, answer, returned,
}
use managed_cluster_validati.Webhook.{Rule, LabelSelector, Webhook, default_label_selector}

abbrev pub privileged_users : List String
privileged_users =
    "kube:admin" ∷ "system:admin" ∷ "system:serviceaccount:kube-system:generic-garbage-collector"
    ∷ "backplane-cluster-admin" ∷ []

abbrev pub admin_groups : List String
admin_groups = "system:serviceaccounts:openshift-backplane-srep" ∷ []

abbrev rules : List Rule
rules =
    record {
      operations = "UPDATE" ∷ "DELETE" ∷ [];
      api_groups = "quota.openshift.io" ∷ [];
      api_versions = "*" ∷ [];
      resources = "clusterresourcequotas" ∷ [];
      scope = "Cluster";
    }
    ∷ []

abbrev object_selector : LabelSelector
object_selector = record {
  match_labels = ("hive.openshift.io/managed", "true") ∷ [];
  match_expressions = [];
}

unfoldable pub authorized : Request → Response
authorized request =
    if contains privileged_users request.username
    then answer request (allow "Admin users may edit managed resources")
    else if any (λ group. contains admin_groups group) request.groups
    then answer request (allow "Members of admin group may edit managed resources")
    else answer request (
        deny
          "Prevented from accessing Red Hat managed resources. This is in an effort to prevent harmful actions that may cause unintended consequences or affect the stability of the cluster. If you have any questions about this, please reach out to Red Hat support at https://access.redhat.com/support")

unfoldable pub validate : Request → Bool
validate request = not (request.username == "")

abbrev pub hook : Webhook
hook = record {
  authorized = λ request. returned (authorized request);
  uri = "/hiveownership-validation";
  validate = validate;
  name = "hiveownership-validation";
  failure_policy = "Ignore";
  match_policy = "Equivalent";
  rules = rules;
  object_selector = some object_selector;
  side_effects = "None";
  timeout_seconds = 2;
  sync_set_label_selector = default_label_selector;
  classic_enabled = true;
  hypershift_enabled = false;
}

-- A request is allowed exactly when its user is privileged or one of its groups is an admin group.
pub hive_ownership_authorized_iff :
    (request : Request)
    → (is_allowed (authorized request).verdict ≡ true) ↔ (
        Member request.username privileged_users
        ⊎ Any (λ group. Member group admin_groups) request.groups)
unfolding authorized
hive_ownership_authorized_iff request = ground (
  arith,
  contains_iff privileged_users request.username,
  any_iff (λ group. contains admin_groups group) (contains_iff admin_groups) request.groups,
)
