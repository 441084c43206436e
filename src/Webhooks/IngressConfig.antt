-- ===== src/Webhooks/IngressConfig.antt =====
-- pkg/webhooks/ingressconfig/ingressconfig.go: the ingress config is changed by privileged service
-- accounts.
use managed_cluster_validati.Base.{
  String, ◌≡◌, ◌↔◌, ◌⊎◌, Bool, true, not, ◌&&◌, none, List, [], ◌∷◌, arith, any, Any, ◌==◌,
  if◌then◌else◌,
}
use managed_cluster_validati.Base.Text.{has_substring}
use managed_cluster_validati.Regex.{Regex, chars, match}
use managed_cluster_validati.Regex.Shapes.{match-chars}
use managed_cluster_validati.Admission.{
  Request, Response, allow, deny, is_allowed, answer, returned,
}
use managed_cluster_validati.Utils.{privileged_service_account_groups, has_privileged_group}
use managed_cluster_validati.Utils.Matching.{IsPrivilegedGroup, has_privileged_group_iff}
use managed_cluster_validati.Webhook.{Rule, Webhook, default_label_selector}

-- system:admin, with no anchors
abbrev pub privileged_users : Regex
privileged_users = chars "system:admin"

abbrev rules : List Rule
rules =
    record {
      operations = "CREATE" ∷ "UPDATE" ∷ "DELETE" ∷ [];
      api_groups = "config.openshift.io" ∷ [];
      api_versions = "*" ∷ [];
      resources = "ingresses" ∷ [];
      scope = "Cluster";
    }
    ∷ []

-- The loop over the groups overwrites the result at each group that matches.
over_groups : Request → Response → List String → Response
over_groups request ret [] = ret
over_groups request ret (group ∷ groups) =
    over_groups request
      (if match privileged_service_account_groups group
        then answer request (allow "Privileged service accounts may access")
        else ret)
      groups

over_user : Request → Response → Response
over_user request ret =
    if match privileged_users request.username
    then answer request (allow "Privileged service accounts may access")
    else ret

pub authorized : Request → Response
unfolding over_groups over_user
authorized request = over_user request (
    over_groups request (answer request (deny "Only privileged service accounts may access"))
      request.groups)

unfoldable pub validate : Request → Bool
validate request = not (request.username == "") && request.kind == "Ingress"

abbrev pub hook : Webhook
hook = record {
  authorized = λ request. returned (authorized request);
  uri = "/ingressconfig-validation";
  validate = validate;
  name = "ingress-config-validation";
  failure_policy = "Ignore";
  match_policy = "Equivalent";
  rules = rules;
  object_selector = none;
  side_effects = "None";
  timeout_seconds = 2;
  sync_set_label_selector = default_label_selector;
  classic_enabled = true;
  hypershift_enabled = true;
}

over_groups_lem :
    (request : Request) (ret : Response) (groups : List String)
    → (is_allowed (over_groups request ret groups).verdict ≡ true) ↔ (
        (any (λ group. match privileged_service_account_groups group) groups ≡ true)
        ⊎ (is_allowed ret.verdict ≡ true))
unfolding over_groups any
over_groups_lem request ret [] = ground arith
over_groups_lem request ret (group ∷ groups) = ground (
  arith,
  over_groups_lem request (answer request (allow "Privileged service accounts may access")) groups,
  over_groups_lem request ret groups,
)

-- A request is allowed exactly when one of its groups is a privileged service account's, or its
-- username has `system:admin` anywhere in it: `evil-system:admin2` is let through.
pub ingress_config_authorized_iff :
    (request : Request)
    → (is_allowed (authorized request).verdict ≡ true) ↔ (
        Any IsPrivilegedGroup request.groups
        ⊎ (has_substring request.username "system:admin" ≡ true))
unfolding authorized has_privileged_group
ingress_config_authorized_iff request = ground (
  arith,
  over_groups_lem request (answer request (deny "Only privileged service accounts may access"))
      request.groups,
  has_privileged_group_iff request,
  match-chars "system:admin" request.username,
)
