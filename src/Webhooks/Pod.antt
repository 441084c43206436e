-- ===== src/Webhooks/Pod.antt =====
-- pkg/webhooks/pod/pod.go: customers do not schedule pods on infra or master nodes.
use managed_cluster_validati.Base.{
  String, ◌≡◌, ◌≢◌, ◌↔◌, ◌⊎◌, Bool, true, false, not, ◌&&◌, Option, none, some, List, [], ◌∷◌,
  arith, Any, ◌==◌, eq_iff, if◌then◌else◌,
}
use managed_cluster_validati.Base.Text.{has_substring}
use managed_cluster_validati.Regex.{Regex, alt, chars, match}
use managed_cluster_validati.Regex.Shapes.{match-alt, match-chars}
use managed_cluster_validati.Admission.{
  Request, Response, allow, deny, is_allowed, answer, bad_request, returned, Result, ok, fail,
  Decoder,
}
use managed_cluster_validati.Config.{is_privileged_namespace}
use managed_cluster_validati.Config.Namespaces.{IsPrivilegedNamespace, is_privileged_namespace_iff}
use managed_cluster_validati.Webhook.{Rule, Webhook, default_label_selector}

-- (openshift-logging|openshift-operators)
abbrev pub unprivileged_namespace : Regex
unprivileged_namespace = alt (chars "openshift-logging") (chars "openshift-operators")

abbrev rules : List Rule
rules =
    record {
      operations = "*" ∷ [];
      api_groups = "v1" ∷ [];
      api_versions = "*" ∷ [];
      resources = "pods" ∷ [];
      scope = "Namespaced";
    }
    ∷ []

pub record Toleration : Type 0 where
  pub key : String
  pub effect : String

pub record Pod : Type 0 where
  pub namespace : String
  pub tolerations : List Toleration

unfoldable pub validate : Request → Bool
validate request = not (request.username == "") && request.kind == "Pod"

unfoldable pub render_pod : Decoder Pod → Request → Result Pod
render_pod decoder request =
    if not (request.old_object == "")
    then decoder.decode_raw request.old_object
    else decoder.decode_raw request.object

pub is_request_privileged : String → Bool
is_request_privileged namespace =
    if is_privileged_namespace namespace
    then if match unprivileged_namespace namespace then false else true
    else false

-- The message of the first of the four tests that the toleration meets.
refuse_toleration : Toleration → Option String
refuse_toleration toleration =
    if toleration.key == "node-role.kubernetes.io/infra" && toleration.effect == "NoSchedule"
    then some "Not allowed to schedule a pod with NoSchedule taint on infra node"
    else if toleration.key == "node-role.kubernetes.io/infra"
        && toleration.effect == "PreferNoSchedule"
    then some "Not allowed to schedule a pod with PreferNoSchedule taint on infra node"
    else if toleration.key == "node-role.kubernetes.io/master" && toleration.effect == "NoSchedule"
    then some "Not allowed to schedule a pod with NoSchedule taint on master node"
    else if toleration.key == "node-role.kubernetes.io/master"
        && toleration.effect == "PreferNoSchedule"
    then some "Not allowed to schedule a pod with PreferNoSchedule taint on master node"
    else none

or_else : Option String → Option String → Option String
or_else none later = later
or_else (some message) later = some message

refuse_tolerations : List Toleration → Option String
unfolding refuse_toleration or_else
refuse_tolerations [] = none
refuse_tolerations (toleration ∷ rest) =
    or_else (refuse_toleration toleration) (refuse_tolerations rest)

answer_pod : Request → Option String → Response
answer_pod request (some message) = answer request (deny message)
answer_pod request none = answer request (allow "Allowed to create Pod because of RBAC")

authorize_rendered : Request → Result Pod → Response
unfolding answer_pod
authorize_rendered request (fail err) = bad_request err
authorize_rendered request (ok pod) =
    if not (is_request_privileged pod.namespace)
    then answer_pod request (refuse_tolerations pod.tolerations)
    else answer_pod request none

pub authorized : Decoder Pod → Request → Response
unfolding authorize_rendered
authorized decoder request = authorize_rendered request (render_pod decoder request)

abbrev pub hook : Decoder Pod → Webhook
hook decoder = record {
  authorized = λ request. returned (authorized decoder request);
  uri = "/pod-validation";
  validate = validate;
  name = "pod-validation";
  failure_policy = "Ignore";
  match_policy = "Equivalent";
  rules = rules;
  object_selector = none;
  side_effects = "None";
  timeout_seconds = 1;
  sync_set_label_selector = default_label_selector;
  classic_enabled = true;
  hypershift_enabled = false;
}

-- The toleration lets a pod run on an infra or a master node.
abbrev pub IsReserved : Toleration → Type 0
IsReserved toleration =
    ((toleration.key ≡ "node-role.kubernetes.io/infra")
      ⊎ (toleration.key ≡ "node-role.kubernetes.io/master"))
    × ((toleration.effect ≡ "NoSchedule") ⊎ (toleration.effect ≡ "PreferNoSchedule"))

-- A privileged namespace with neither `openshift-logging` nor `openshift-operators` anywhere in it.
abbrev pub IsExempt : String → Type 0
IsExempt ns =
    IsPrivilegedNamespace ns
    × ¬ (has_substring ns "openshift-logging" ≡ true)
    × ¬ (has_substring ns "openshift-operators" ≡ true)

is_request_privileged_iff : (ns : String) → (is_request_privileged ns ≡ true) ↔ IsExempt ns
unfolding is_request_privileged
is_request_privileged_iff ns = ground (
  arith,
  is_privileged_namespace_iff ns,
  match-alt (chars "openshift-logging") (chars "openshift-operators") ns,
  match-chars "openshift-logging" ns,
  match-chars "openshift-operators" ns,
)

refuse_toleration_iff : (t : Toleration) → (refuse_toleration t ≢ none) ↔ IsReserved t
unfolding refuse_toleration
refuse_toleration_iff t = ground (
  arith,
  eq_iff t.key "node-role.kubernetes.io/infra",
  eq_iff t.key "node-role.kubernetes.io/master",
  eq_iff t.effect "NoSchedule",
  eq_iff t.effect "PreferNoSchedule",
)

refuse_tolerations_iff : (ts : List Toleration) → (refuse_tolerations ts ≢ none) ↔ Any IsReserved ts
unfolding refuse_tolerations
refuse_tolerations_iff [] = ground arith
refuse_tolerations_iff (t ∷ ts) = ground (arith, refuse_toleration_iff t, refuse_tolerations_iff ts)

-- A pod that decodes is refused exactly when one of its tolerations is for infra or master nodes
-- and its namespace is not exempt.
pub pod_authorized_iff :
    (decoder : Decoder Pod) (request : Request) (pod : Pod)
    → render_pod decoder request ≡ ok pod
    → (is_allowed (authorized decoder request).verdict ≡ false)
      ↔ (Any IsReserved pod.tolerations × ¬ IsExempt pod.namespace)
unfolding authorized
pod_authorized_iff decoder request pod e =
    ground (arith, is_request_privileged_iff pod.namespace, refuse_tolerations_iff pod.tolerations)
