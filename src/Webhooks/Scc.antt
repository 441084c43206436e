-- ===== src/Webhooks/Scc.antt =====
-- pkg/webhooks/scc/scc.go: the default SecurityContextConstraints are not changed by customers.
use managed_cluster_validati.Base.{
  String, ◌≡◌, ◌↔◌, ◌⊎◌, Bool, true, false, not, ◌&&◌, ◌||◌, none, List, [], ◌∷◌, arith, any,
  contains, contains_iff, any-eq_iff, Member, ◌==◌, if◌then◌else◌,
}
use managed_cluster_validati.Base.Text.{concat, print_list}
use managed_cluster_validati.Admission.{
  update, delete, Request, Response, allow, deny, is_allowed, answer, bad_request, returned, Result,
  ok, fail, Decoder,
}
use managed_cluster_validati.Webhook.{Rule, Webhook, default_label_selector}

abbrev webhook_name : String
webhook_name = "scc-validation"

abbrev rules : List Rule
rules =
    record {
      operations = "UPDATE" ∷ "DELETE" ∷ [];
      api_groups = "security.openshift.io" ∷ [];
      api_versions = "*" ∷ [];
      resources = "securitycontextconstraints" ∷ [];
      scope = "Cluster";
    }
    ∷ []

abbrev pub allowed_users : List String
allowed_users =
    "system:serviceaccount:openshift-kube-apiserver-operator:kube-apiserver-operator"
    ∷ "system:serviceaccount:openshift-monitoring:cluster-monitoring-operator"
    ∷ "system:serviceaccount:openshift-cluster-version:default" ∷ "system:admin" ∷ []

abbrev allowed_groups : List String
allowed_groups = []

abbrev pub default_sccs : List String
default_sccs =
    "anyuid" ∷ "hostaccess" ∷ "hostmount-anyuid" ∷ "hostnetwork" ∷ "hostnetwork-v2"
    ∷ "node-exporter" ∷ "nonroot" ∷ "nonroot-v2" ∷ "privileged" ∷ "restricted" ∷ "restricted-v2"
    ∷ []

-- The field of a SecurityContextConstraints that is read.
pub record Scc : Type 0 where
  pub name : String

module _ (decoder : Decoder Scc) where
  -- Without an old object there is nothing to decode, and the name stays empty.
  unfoldable pub render_scc : Request → Result Scc
  render_scc request =
      if not (request.old_object == "")
      then decoder.decode_raw request.old_object
      else ok (record { name = "" })

is_allowed_user_group : Request → Bool
unfolding any
is_allowed_user_group request =
    contains allowed_users request.username
    || any (λ group. contains request.groups group) allowed_groups

is_default_scc : Scc → Bool
is_default_scc scc = any (λ s. scc.name == s) default_sccs

unfoldable pub validate : Request → Bool
validate request = not (request.username == "") && request.kind == "SecurityContextConstraints"

module _ (decoder : Decoder Scc) where
  authorize_scc : Request → Scc → Response
  authorize_scc request scc =
      if is_default_scc scc && not (is_allowed_user_group request)
      then elim request.operation [
        | delete ↦ answer request (
            deny (
              concat ("Deleting default SCCs " ∷ print_list default_sccs ∷ " is not allowed" ∷ [])))
        | update ↦ answer request (
            deny (
              concat
                ("Modifying default SCCs " ∷ print_list default_sccs ∷ " is not allowed" ∷ [])))
        | _ ↦ answer request (allow "Request is allowed")
      ]
      else answer request (allow "Request is allowed")

  pub authorized : Request → Response
  unfolding authorize_scc
  authorized request = elim (render_scc decoder request) [
    | fail err ↦ bad_request err
    | ok scc ↦ authorize_scc request scc
  ]

abbrev pub hook : Decoder Scc → Webhook
hook decoder = record {
  authorized = λ request. returned (authorized decoder request);
  uri = "/scc-validation";
  validate = validate;
  name = webhook_name;
  failure_policy = "Ignore";
  match_policy = "Equivalent";
  rules = rules;
  object_selector = none;
  side_effects = "None";
  timeout_seconds = 2;
  sync_set_label_selector = default_label_selector;
  classic_enabled = true;
  hypershift_enabled = true;
}

is_default_scc_iff : (scc : Scc) → (is_default_scc scc ≡ true) ↔ Member scc.name default_sccs
unfolding is_default_scc
is_default_scc_iff scc = any-eq_iff default_sccs scc.name

is_allowed_user_group_iff :
    (request : Request)
    → (is_allowed_user_group request ≡ true) ↔ Member request.username allowed_users
unfolding is_allowed_user_group
is_allowed_user_group_iff request = ground (arith, contains_iff allowed_users request.username)

-- A request that decodes is refused exactly when it updates or deletes a default SCC and its user
-- is not one of the allowed users.
pub scc_authorized_iff :
    (decoder : Decoder Scc) (request : Request) (scc : Scc)
    → render_scc decoder request ≡ ok scc
    → (is_allowed (authorized decoder request).verdict ≡ false) ↔ (
        Member scc.name default_sccs
        × ((request.operation ≡ update) ⊎ (request.operation ≡ delete))
        × ¬ Member request.username allowed_users)
unfolding authorized
scc_authorized_iff decoder request scc e =
    ground (arith, is_default_scc_iff scc, is_allowed_user_group_iff request)
