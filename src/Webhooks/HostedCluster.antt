-- ===== src/Webhooks/HostedCluster.antt =====
-- pkg/webhooks/hostedcluster/hostedcluster.go: one service account deletes HostedClusters.
use managed_cluster_validati.Base.{
  String, ◌≡◌, ◌≢◌, ◌↔◌, Bool, true, false, not, ◌&&◌, none, List, [], ◌∷◌, arith, ◌==◌, eq_iff,
  if◌then◌else◌,
}
use managed_cluster_validati.Base.Text.{concat}
use managed_cluster_validati.Admission.{
  delete, is_delete, Request, Response, allow, deny, is_allowed, answer, returned,
}
use managed_cluster_validati.Webhook.{Rule, LabelSelector, Webhook, default_label_selector}

abbrev rules : List Rule
rules =
    record {
      operations = "DELETE" ∷ [];
      api_groups = "hypershift.openshift.io" ∷ [];
      api_versions = "*" ∷ [];
      resources = "hostedclusters" ∷ [];
      scope = "Namespaced";
    }
    ∷ []

abbrev pub allowed_service_account : String
allowed_service_account = "system:serviceaccount:open-cluster-management-agent:klusterlet-work-sa"

pub authorized : Request → Response
authorized request =
    if request.username == allowed_service_account
    then answer request (allow "Service account is authorized to delete HostedCluster resources")
    else if not (is_delete request.operation)
    then answer request (allow "Only DELETE operations are restricted")
    else answer request (
        deny (
          concat (
            "Only " ∷ allowed_service_account ∷ " is authorized to delete HostedCluster resources"
            ∷ [])))

unfoldable pub validate : Request → Bool
validate request =
    not (request.username == "")
    && (request.kind == "HostedCluster" && request.group == "hypershift.openshift.io")

abbrev sync_set_label_selector : LabelSelector
sync_set_label_selector = record {
  match_labels = default_label_selector.match_labels;
  match_expressions =
      record {
        key = "ext-hypershift.openshift.io/cluster-type";
        operator = "In";
        values = "management-cluster" ∷ [];
      }
      ∷ [];
}

abbrev pub hook : Webhook
hook = record {
  authorized = λ request. returned (authorized request);
  uri = "/hostedcluster-validation";
  validate = validate;
  name = "hostedcluster-validation";
  failure_policy = "Ignore";
  match_policy = "Equivalent";
  rules = rules;
  object_selector = none;
  side_effects = "None";
  timeout_seconds = 2;
  sync_set_label_selector = sync_set_label_selector;
  classic_enabled = true;
  hypershift_enabled = false;
}

-- A request is refused exactly when it deletes a HostedCluster and its user is not the listed
-- service account.
pub hosted_cluster_authorized_iff :
    (request : Request)
    → (is_allowed (authorized request).verdict ≡ false)
      ↔ ((request.operation ≡ delete) × (request.username ≢ allowed_service_account))
unfolding authorized
hosted_cluster_authorized_iff request =
    ground (arith, eq_iff request.username allowed_service_account)
