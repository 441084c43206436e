-- ===== src/Webhooks/Node.antt =====
-- pkg/webhooks/node/node.go: customers change worker nodes only, and delete none.
use managed_cluster_validati.Base.Maps.{Labels, lookup}
use managed_cluster_validati.Base.{
  String, ◌≡◌, ◌≢◌, ◌↔◌, ◌⊎◌, Bool, true, false, not, Option, none, some, List, [], ◌∷◌, arith, any,
  Any, any_iff, contains, contains_iff, Member, ◌==◌, eq_iff, if◌then◌else◌,
}
use managed_cluster_validati.Base.Text.{has_prefix}
use managed_cluster_validati.Admission.{
  update, delete, is_delete, Request, Response, allow, deny, is_allowed, answer, bad_request,
  returned, Result, ok, fail, Decoder,
}
use managed_cluster_validati.Webhook.{Rule, Webhook, default_label_selector}

abbrev pub admin_groups : List String
admin_groups = "system:serviceaccounts:openshift-backplane-srep" ∷ []

abbrev pub admin_users : List String
admin_users = "backplane-cluster-admin" ∷ []

abbrev rules : List Rule
rules =
    record {
      operations = "CREATE" ∷ "UPDATE" ∷ "DELETE" ∷ [];
      api_groups = "" ∷ [];
      api_versions = "*" ∷ [];
      resources = "nodes" ∷ "nodes/*" ∷ [];
      scope = "*";
    }
    ∷ []

pub record Node : Type 0 where
  pub name : String
  pub labels : Labels

unfoldable pub validate : Request → Bool
validate request = not (request.username == "")

-- A deletion has no new object.
unfoldable pub render_node : Decoder Node → Request → Result Node
render_node decoder request =
    if is_delete request.operation
    then decoder.decode_raw request.old_object
    else decoder.decode_raw request.object

is_found : Option String → Bool
is_found none = false
is_found (some _) = true

abbrev denied_delete : String
denied_delete =
    "Prevented from deleting nodes. This is in an effort to prevent harmful actions that may cause unintended consequences or affect the stability of the cluster. If you have any questions about this, please reach out to Red Hat support at https://access.redhat.com/support"

abbrev denied_infra : String
denied_infra =
    "Prevented from modifying Red Hat managed infra nodes. This is in an effort to prevent harmful actions that may cause unintended consequences or affect the stability of the cluster. If you have any questions about this, please reach out to Red Hat support at https://access.redhat.com/support"

abbrev denied_control_plane : String
denied_control_plane =
    "Prevented from modifying Red Hat managed control plane nodes. This is in an effort to prevent harmful actions that may cause unintended consequences or affect the stability of the cluster. If you have any questions about this, please reach out to Red Hat support at https://access.redhat.com/support"

abbrev denied_master : String
denied_master =
    "Prevented from modifying Red Hat managed master nodes. This is in an effort to prevent harmful actions that may cause unintended consequences or affect the stability of the cluster. If you have any questions about this, please reach out to Red Hat support at https://access.redhat.com/support"

authorize_node : Request → Node → Response
unfolding is_found
authorize_node request node =
    if is_delete request.operation
    then answer request (deny denied_delete)
    else if is_found (lookup "node-role.kubernetes.io/infra" node.labels)
    then answer request (deny denied_infra)
    else if is_found (lookup "node-role.kubernetes.io/control-plane" node.labels)
    then answer request (deny denied_control_plane)
    else if is_found (lookup "node-role.kubernetes.io/master" node.labels)
    then answer request (deny denied_master)
    else answer request (allow "Allowed to modify worker nodes")

authorize_rendered : Request → Result Node → Response
unfolding authorize_node
authorize_rendered request (fail err) = bad_request err
authorize_rendered request (ok node) = authorize_node request node

pub authorized : Decoder Node → Request → Response
unfolding authorize_rendered
authorized decoder request =
    if request.username == "system:unauthenticated"
    then answer request (deny "Unauthenticated")
    else if has_prefix request.username "system:"
    then answer request (allow "authenticated system: users are allowed")
    else if has_prefix request.username "kube:"
    then answer request (allow "kube: users are allowed")
    else if contains admin_users request.username
    then answer request (allow "Specified admin users are allowed")
    else if any (λ group. contains admin_groups group) request.groups
    then answer request (allow "Members of admin groups are allowed")
    else if request.kind == "Node"
    then authorize_rendered request (render_node decoder request)
    else answer request (
        deny
          "Prevented from accessing Red Hat managed resources. This is in an effort to prevent harmful actions that may cause unintended consequences or affect the stability of the cluster. If you have any questions about this, please reach out to Red Hat support at https://access.redhat.com/support")

abbrev pub hook : Decoder Node → Webhook
hook decoder = record {
  authorized = λ request. returned (authorized decoder request);
  uri = "/node-validation-osd";
  validate = validate;
  name = "node-validation-osd";
  failure_policy = "Ignore";
  match_policy = "Equivalent";
  rules = rules;
  object_selector = none;
  side_effects = "None";
  timeout_seconds = 2;
  sync_set_label_selector = default_label_selector;
  classic_enabled = true;
  hypershift_enabled = false;
}

abbrev pub IsPrivilegedUser : Request → Type 0
IsPrivilegedUser request =
    (has_prefix request.username "system:" ≡ true)
    ⊎ (has_prefix request.username "kube:" ≡ true)
    ⊎ Member request.username admin_users
    ⊎ Any (λ group. Member group admin_groups) request.groups

-- None of the labels of infra, control plane and master nodes.
abbrev pub IsWorker : Node → Type 0
IsWorker node =
    (lookup "node-role.kubernetes.io/infra" node.labels ≡ none)
    × (lookup "node-role.kubernetes.io/control-plane" node.labels ≡ none)
    × (lookup "node-role.kubernetes.io/master" node.labels ≡ none)

-- A request whose node decodes is allowed exactly when its user is authenticated and either is
-- privileged, or changes a Node that has no reserved label and is not deleted.
pub node_authorized_iff :
    (decoder : Decoder Node) (request : Request) (node : Node)
    → render_node decoder request ≡ ok node
    → (is_allowed (authorized decoder request).verdict ≡ true) ↔ (
        (request.username ≢ "system:unauthenticated")
        × (IsPrivilegedUser request
            ⊎ ((request.kind ≡ "Node") × (request.operation ≢ delete) × IsWorker node)))
unfolding authorized
node_authorized_iff decoder request node e = ground (
  arith,
  eq_iff request.username "system:unauthenticated",
  eq_iff request.kind "Node",
  contains_iff admin_users request.username,
  any_iff (λ group. contains admin_groups group) (contains_iff admin_groups) request.groups,
)

-- An update of a Node by an authenticated user is allowed where both nodes decode, the new one has no
-- reserved label and the old one has: the update is judged by the new node alone, so the label of an
-- infra node can be taken off.
pub update_ignores_old :
    (decoder : Decoder Node) (request : Request) (new old : Node)
    → request.operation ≡ update
    → request.kind ≡ "Node"
    → request.username ≢ "system:unauthenticated"
    → decoder.decode_raw request.object ≡ ok new
    → decoder.decode_raw request.old_object ≡ ok old
    → IsWorker new
    → ¬ IsWorker old
    → is_allowed (authorized decoder request).verdict ≡ true
unfolding authorized render_node
update_ignores_old decoder request new old op kind user e _ worker _ =
    ground (arith, eq_iff request.kind "Node", eq_iff request.username "system:unauthenticated")
