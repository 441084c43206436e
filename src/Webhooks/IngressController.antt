-- ===== src/Webhooks/IngressController.antt =====
-- pkg/webhooks/ingresscontroller/ingresscontroller.go: customers do not place ingress controllers on
-- master nodes.
use managed_cluster_validati.Base.{
  String, ◌≡◌, ◌≢◌, ◌↔◌, ◌⊎◌, Bool, true, false, not, ◌&&◌, Option, none, some, List, [], ◌∷◌,
  arith, any, Any, any_iff, contains, contains_iff, Member, ◌==◌, eq_iff, if◌then◌else◌,
}
use managed_cluster_validati.Base.Text.{has_prefix, has_substring}
use managed_cluster_validati.Admission.{
  Request, allow, deny, answer, bad_request, Outcome, returned, panicked, allows, Result, ok, fail,
  Decoder,
}
use managed_cluster_validati.Webhook.{Rule, LabelSelector, Webhook, default_label_selector}

abbrev rules : List Rule
rules =
    record {
      operations = "CREATE" ∷ "UPDATE" ∷ [];
      api_groups = "operator.openshift.io" ∷ [];
      api_versions = "*" ∷ [];
      resources = "ingresscontroller" ∷ "ingresscontrollers" ∷ [];
      scope = "Namespaced";
    }
    ∷ []

abbrev pub allowed_users : List String
allowed_users = "backplane-cluster-admin" ∷ []

-- The keys of the tolerations of the node placement, which is a pointer.
pub record IngressController : Type 0 where
  pub node_placement : Option (List String)

unfoldable pub validate : Request → Bool
validate request = not (request.username == "") && request.kind == "IngressController"

unfoldable pub render_ingress_controller :
    Decoder IngressController → Request → Result IngressController
render_ingress_controller decoder request = decoder.decode_raw request.object

is_allowed_user : Request → Bool
is_allowed_user request = contains allowed_users request.username

-- A nil node placement panics.
check_tolerations : Request → Option (List String) → Outcome
check_tolerations request none = panicked
check_tolerations request (some keys) =
    if any (λ key. has_substring key "node-role.kubernetes.io/master") keys
    then returned (
        answer request (
          deny
            "Not allowed to provision ingress controller pods with toleration for master nodes."))
    else returned (answer request (allow "IngressController operation is allowed"))

authorize_rendered : Request → Result IngressController → Outcome
unfolding check_tolerations
authorize_rendered request (fail err) = returned (bad_request err)
authorize_rendered request (ok ic) =
    if request.username == "system:unauthenticated"
    then returned (answer request (deny "Unauthenticated"))
    else if has_prefix request.username "system:"
    then returned (answer request (allow "authenticated system: users are allowed"))
    else if has_prefix request.username "kube:"
    then returned (answer request (allow "kube: users are allowed"))
    else if not (is_allowed_user request)
    then check_tolerations request ic.node_placement
    else returned (answer request (allow "IngressController operation is allowed"))

pub authorized : Decoder IngressController → Request → Outcome
unfolding authorize_rendered
authorized decoder request = authorize_rendered request (render_ingress_controller decoder request)

-- Managed ingress v2 is turned on by the label of the legacy ingress, set to false.
abbrev sync_set_label_selector : LabelSelector
sync_set_label_selector = record {
  match_labels = default_label_selector.match_labels;
  match_expressions =
      record {
        key = "ext-managed.openshift.io/legacy-ingress-support";
        operator = "In";
        values = "false" ∷ [];
      }
      ∷ [];
}

abbrev pub hook : Decoder IngressController → Webhook
hook decoder = record {
  authorized = authorized decoder;
  uri = "/ingresscontroller-validation";
  validate = validate;
  name = "ingresscontroller-validation";
  failure_policy = "Ignore";
  match_policy = "Equivalent";
  rules = rules;
  object_selector = none;
  side_effects = "None";
  timeout_seconds = 1;
  sync_set_label_selector = sync_set_label_selector;
  classic_enabled = true;
  hypershift_enabled = false;
}

abbrev pub IsSystemUser : String → Type 0
IsSystemUser user =
    (user ≢ "system:unauthenticated")
    × ((has_prefix user "system:" ≡ true) ⊎ (has_prefix user "kube:" ≡ true))

-- The keys name the label of master nodes.
abbrev pub NamesMaster : List String → Type 0
NamesMaster keys = Any (λ key. has_substring key "node-role.kubernetes.io/master" ≡ true) keys

-- For an ingress controller that decodes and has a node placement, the handler returns, and it
-- refuses exactly unauthenticated users and those who are neither one of the cluster's own
-- components nor allowed by name and tolerate master nodes.
pub ingress_controller_authorized_iff :
    (decoder : Decoder IngressController) (request : Request) (ic : IngressController)
    (keys : List String)
    → render_ingress_controller decoder request ≡ ok ic
    → ic.node_placement ≡ some keys
    → (allows (authorized decoder request) ≡ false) ↔ (
        (request.username ≡ "system:unauthenticated")
        ⊎ (NamesMaster keys
            × ¬ IsSystemUser request.username
            × ¬ Member request.username allowed_users))
unfolding authorized is_allowed_user
ingress_controller_authorized_iff decoder request ic keys e p = ground (
  arith,
  eq_iff request.username "system:unauthenticated",
  contains_iff allowed_users request.username,
  any_iff (λ key. has_substring key "node-role.kubernetes.io/master") (λ key. (λ h. h, λ h. h))
      keys,
)

-- For an ingress controller that decodes and has no node placement the handler panics, if the user is
-- authenticated, not one of the cluster's own components, and not allowed by name.
pub no_placement_panics :
    (decoder : Decoder IngressController) (request : Request) (ic : IngressController)
    → render_ingress_controller decoder request ≡ ok ic
    → ic.node_placement ≡ none
    → request.username ≢ "system:unauthenticated"
    → ¬ IsSystemUser request.username
    → ¬ Member request.username allowed_users
    → authorized decoder request ≡ panicked
unfolding authorized is_allowed_user
no_placement_panics decoder request ic e p u s m = ground (
  arith,
  eq_iff request.username "system:unauthenticated",
  contains_iff allowed_users request.username,
)
