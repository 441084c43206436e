-- ===== src/Webhooks/RegularUser.antt =====
-- pkg/webhooks/regularuser/common/regularuser.go: the resources of Red Hat's SREs, the cluster's own
-- configuration and MachineConfigs are not managed by customers.
pub mod Access
use managed_cluster_validati.Webhooks.Namespace.{bad_namespace}
use managed_cluster_validati.Base.{
  ℕ, String, ◌≡◌, refl, ◌≢◌, ◌↔◌, ◌⊎◌, inl, inr, Bool, true, false, not, ◌&&◌, ◌||◌, Option, none,
  some, List, [], ◌∷◌, ◌++◌, arith, any, Any, any_iff, any-eq_iff, contains, contains_iff, Member,
  ◌==◌, eq_iff, if◌then◌else◌, Bool-cases, length, nat_eq, ltb, leb, or-true,
}
use managed_cluster_validati.Base.Text.{
  concat, print_list, has_prefix, has_substring, split, join, join_with, codes, strip_prefix,
}
use managed_cluster_validati.Regex.{
  Regex, begin, end, any_char, seq, alt, star, chars, exactly, starting, optional, match,
}
use managed_cluster_validati.Regex.Shapes.{
  match-exactly, match-exactly_eq, match-starting, match-alt, match-chars,
}
use managed_cluster_validati.Admission.{
  Operation, create, update, delete, connect, is_create, is_update, is_delete, Request, Response,
  Verdict, allow, deny, errored, validation, is_allowed, answer, bad_request, Outcome, returned,
  panicked, allows, Result, ok, fail, Decoder,
}
use managed_cluster_validati.Utils.{
  request_matches_group_kind, regex_slice_contains, webhook_response,
  privileged_service_account_groups, has_privileged_group, protected_names,
  is_protected_by_resource_name,
}
use managed_cluster_validati.Utils.Matching.{
  IsPrivilegedGroup, has_privileged_group_iff, is_protected_by_resource_name_iff,
}
use managed_cluster_validati.Config.{is_privileged_namespace, privileged_namespace_texts}
use managed_cluster_validati.Config.Namespaces.{IsPrivilegedNamespace, is_privileged_namespace_iff}
use managed_cluster_validati.Webhook.{Rule, LabelSelector, Webhook, default_label_selector}

abbrev rules : List Rule
rules =
    record {
      operations = "*" ∷ [];
      api_groups =
          "cloudcredential.openshift.io" ∷ "machine.openshift.io" ∷ "admissionregistration.k8s.io"
          ∷ "addons.managed.openshift.io" ∷ "cloudingress.managed.openshift.io"
          ∷ "managed.openshift.io" ∷ "ocmagent.managed.openshift.io"
          ∷ "splunkforwarder.managed.openshift.io" ∷ "upgrade.managed.openshift.io" ∷ [];
      api_versions = "*" ∷ [];
      resources = "*/*" ∷ [];
      scope = "*";
    }
    ∷ record {
      operations = "*" ∷ [];
      api_groups = "autoscaling.openshift.io" ∷ [];
      api_versions = "*" ∷ [];
      resources = "clusterautoscalers" ∷ "machineautoscalers" ∷ [];
      scope = "*";
    }
    ∷ record {
      operations = "*" ∷ [];
      api_groups = "config.openshift.io" ∷ [];
      api_versions = "*" ∷ [];
      resources =
          "clusterversions" ∷ "clusterversions/status" ∷ "schedulers" ∷ "apiservers" ∷ "proxies"
          ∷ [];
      scope = "*";
    }
    ∷ record {
      operations = "CREATE" ∷ "UPDATE" ∷ "DELETE" ∷ [];
      api_groups = "" ∷ [];
      api_versions = "*" ∷ [];
      resources = "configmaps" ∷ [];
      scope = "*";
    }
    ∷ record {
      operations = "*" ∷ [];
      api_groups = "machineconfiguration.openshift.io" ∷ [];
      api_versions = "*" ∷ [];
      resources = "machineconfigs" ∷ "machineconfigpools" ∷ [];
      scope = "*";
    }
    ∷ record {
      operations = "*" ∷ [];
      api_groups = "operator.openshift.io" ∷ [];
      api_versions = "*" ∷ [];
      resources = "kubeapiservers" ∷ "openshiftapiservers" ∷ [];
      scope = "*";
    }
    ∷ record {
      operations = "*" ∷ [];
      api_groups = "managed.openshift.io" ∷ [];
      api_versions = "*" ∷ [];
      resources = "subjectpermissions" ∷ "subjectpermissions/*" ∷ [];
      scope = "*";
    }
    ∷ record {
      operations = "*" ∷ [];
      api_groups = "network.openshift.io" ∷ [];
      api_versions = "*" ∷ [];
      resources = "netnamespaces" ∷ "netnamespaces/*" ∷ [];
      scope = "*";
    }
    ∷ []

abbrev pub admin_groups : List String
admin_groups = "system:serviceaccounts:openshift-backplane-srep" ∷ []

abbrev pub admin_users : List String
admin_users = "backplane-cluster-admin" ∷ []

abbrev pub cluster_version_users : List String
cluster_version_users =
    "system:serviceaccount:openshift-managed-upgrade-operator:managed-upgrade-operator"
    ∷ "system:serviceaccount:openshift-cluster-version:default"
    ∷ "system:serviceaccount:openshift-cluster-version:cluster-version-operator" ∷ []

abbrev pub machine_config_users : List String
machine_config_users =
    "system:serviceaccount:openshift-cluster-node-tuning-operator:cluster-node-tuning-operator"
    ∷ "system:serviceaccount:openshift-machine-config-operator:machine-config-controller"
    ∷ "system:admin" ∷ []

abbrev pub cee_group : String
cee_group = "system:serviceaccounts:openshift-backplane-cee"

-- The fields that are read of a NetNamespace and of a ConfigMap.
pub record NetNamespace : Type 0 where
  pub name : String

pub record ConfigMap : Type 0 where
  pub name : String
  pub namespace : String

abbrev pub has_admin_group : Request → Bool
has_admin_group request = any (λ group. contains admin_groups group) request.groups

unfoldable pub is_must_gather_authorized : Request → Bool
is_must_gather_authorized request = contains request.groups cee_group

unfoldable pub is_custom_domain_authorized : Request → Bool
is_custom_domain_authorized request =
    contains request.groups "cluster-admins" || contains request.groups "dedicated-admins"

unfoldable pub is_cluster_version_authorized : Request → Bool
is_cluster_version_authorized request =
    if contains cluster_version_users request.username
    then true
    else if contains admin_users request.username
    then true
    else if has_admin_group request
    then true
    else has_prefix request.username "system:"
      && not (has_prefix request.username "system:serviceaccount:")

unfoldable pub is_machine_config_authorized : Request → Bool
is_machine_config_authorized request =
    contains request.groups "cluster-admins"
    || (contains admin_users request.username || contains machine_config_users request.username)

unfoldable pub is_good_name : Result NetNamespace → Bool
is_good_name (fail err) = false
is_good_name (ok net_namespace) =
    not (match bad_namespace net_namespace.name || is_privileged_namespace net_namespace.name)

unfoldable pub is_net_namespace_valid : Decoder NetNamespace → Request → Bool
unfolding is_good_name
is_net_namespace_valid decoder request =
    not (request.object == "") && is_good_name (decoder.decode_raw request.object)

unfoldable pub is_net_namespace_authorized : Decoder NetNamespace → Request → Bool
is_net_namespace_authorized decoder request =
    (contains request.groups "cluster-admins" || contains request.groups "dedicated-admins")
    && is_net_namespace_valid decoder request

unfoldable pub render_config_map : Decoder ConfigMap → Request → Result ConfigMap
render_config_map decoder request =
    if is_delete request.operation
    then decoder.decode_raw request.old_object
    else decoder.decode_raw request.object

unfoldable pub is_other_config_map : Result ConfigMap → Bool
is_other_config_map (fail err) = false
is_other_config_map (ok config_map) =
    not (config_map.name == "user-ca-bundle") || not (config_map.namespace == "openshift-config")

unfoldable pub should_allow_config_map_change : Decoder ConfigMap → Request → Bool
unfolding is_other_config_map
should_allow_config_map_change decoder request =
    is_other_config_map (render_config_map decoder request)

abbrev denied_message : String
denied_message =
    "Prevented from accessing Red Hat managed resources. This is in an effort to prevent harmful actions that may cause unintended consequences or affect the stability of the cluster. If you have any questions about this, please reach out to Red Hat support at https://access.redhat.com/support"

-- What follows the switch: also its cases that do not return get here.
unfoldable pub authorize_rest : Decoder ConfigMap → Request → Response
authorize_rest decoder request =
    if has_prefix request.username "system:"
    then answer request (allow "authenticated system: users are allowed")
    else if contains admin_users request.username
    then answer request (allow "Specified admin users are allowed")
    else if has_admin_group request
    then answer request (allow "Members of admin groups are allowed")
    else if request.kind == "ConfigMap" && should_allow_config_map_change decoder request
    then answer request
        (allow "Modification of Config Maps that are not user-ca-bundle are allowed")
    else answer request (deny denied_message)

-- The switch over group and kind.
unfoldable pub authorize_kind : Decoder NetNamespace → Request → Response → Response
authorize_kind decoder request rest =
    if request_matches_group_kind request "MustGather" "managed.openshift.io"
    then (if is_must_gather_authorized request
        then answer request (allow "Management of MustGather CR is authorized")
        else rest)
    else if request_matches_group_kind request "CustomDomain" "managed.openshift.io"
    then (if is_custom_domain_authorized request
        then answer request (allow "Management of CustomDomain CR is authorized")
        else rest)
    else if request_matches_group_kind request "ClusterVersion" "config.openshift.io"
    then (if is_cluster_version_authorized request
        then webhook_response request true ""
        else webhook_response request false denied_message)
    else if request_matches_group_kind request "NetNamespace" "network.openshift.io"
    then (if is_net_namespace_authorized decoder request
        then answer request (allow "Management of NetNamespace CR is authorized")
        else rest)
    else rest

unfoldable pub authorized : Decoder NetNamespace → Decoder ConfigMap → Request → Response
unfolding authorize_kind authorize_rest
authorized net_namespaces config_maps request =
    if request.username == "system:unauthenticated"
    then answer request (deny "Unauthenticated")
    else if request.group == "machineconfiguration.openshift.io"
    then (if is_machine_config_authorized request
        then webhook_response request true ""
        else webhook_response request false denied_message)
    else if has_prefix request.username "kube:"
    then answer request (allow "kube: users are allowed")
    else authorize_kind net_namespaces request (authorize_rest config_maps request)

unfoldable pub validate : Request → Bool
validate request = not (request.username == "")

abbrev pub hook : Decoder NetNamespace → Decoder ConfigMap → Webhook
hook net_namespaces config_maps = record {
  authorized = λ request. returned (authorized net_namespaces config_maps request);
  uri = "/regularuser-validation";
  validate = validate;
  name = "regular-user-validation";
  failure_policy = "Ignore";
  match_policy = "Equivalent";
  rules = rules;
  object_selector = none;
  side_effects = "None";
  timeout_seconds = 2;
  sync_set_label_selector = default_label_selector;
  classic_enabled = true;
  hypershift_enabled = true;
}
