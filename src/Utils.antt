-- ===== src/Utils.antt =====
-- pkg/webhooks/utils/utils.go: helpers that the webhooks share.
pub mod Matching
use managed_cluster_validati.Base.{
  String, Bool, true, false, ◌&&◌, List, [], ◌∷◌, any, contains, ◌==◌,
}
use managed_cluster_validati.Regex.{
  Regex, begin, any_char, class, seq, alt, star, chars, optional, times, match,
}
use managed_cluster_validati.Admission.{Request, Response, answer, validation}

unfoldable pub request_matches_group_kind : Request → String → String → Bool
request_matches_group_kind req kind group = req.kind == kind && req.group == group

abbrev pub protected_names : List String
protected_names =
    "alertmanagerconfigs.monitoring.coreos.com" ∷ "alertmanagers.monitoring.coreos.com"
    ∷ "prometheuses.monitoring.coreos.com" ∷ "thanosrulers.monitoring.coreos.com"
    ∷ "podmonitors.monitoring.coreos.com" ∷ "probes.monitoring.coreos.com"
    ∷ "prometheusrules.monitoring.coreos.com" ∷ "servicemonitors.monitoring.coreos.com"
    ∷ "prometheusagents.monitoring.coreos.com" ∷ "scrapeconfigs.monitoring.coreos.com" ∷ []

pub is_protected_by_resource_name : String → Bool
is_protected_by_resource_name name = contains protected_names name

-- The patterns are compiled already: those of the source are constants.
unfoldable pub regex_slice_contains : String → List Regex → Bool
regex_slice_contains needle haystack = any (λ check. match check needle) haystack

unfoldable pub webhook_response : Request → Bool → String → Response
webhook_response request allowed reason = answer request (validation allowed reason)

abbrev alphanumeric : Regex
alphanumeric = class ((b'a', b'z') ∷ (b'0', b'9') ∷ [])

-- osde2e-(h-)?[a-z0-9]{5}
abbrev pub osde2e_account : Regex
osde2e_account = seq (chars "osde2e-") (seq (optional (chars "h-")) (times 5 alphanumeric))

-- The groups that `PrivilegedServiceAccountGroups` names after its header.
abbrev pub privileged_accounts : Regex
privileged_accounts = alt (seq (chars "kube-") (star any_char)) (
    alt (chars "openshift") (
      alt (seq (chars "openshift-") (star any_char))
        (alt (chars "default") (alt (seq (chars "redhat-") (star any_char)) osde2e_account))))

-- ^system:serviceaccounts:(kube-.*|openshift|openshift-.*|default|redhat-.*|osde2e-(h-)?[a-z0-9]{5})
abbrev pub privileged_service_account_groups : Regex
privileged_service_account_groups =
    seq begin (seq (chars "system:serviceaccounts:") privileged_accounts)

-- `for _, group := range request.UserInfo.Groups { if re.Match([]byte(group)) { … } }`
unfoldable pub has_privileged_group : Request → Bool
has_privileged_group request =
    any (λ group. match privileged_service_account_groups group) request.groups
