-- ===== src/Webhooks/ManifestWorks.antt =====
-- pkg/webhooks/manifestworks/manifestworks.go: some service accounts delete ManifestWorks.
use managed_cluster_validati.Base.{
  String, ◌≡◌, ◌↔◌, Bool, true, false, not, ◌&&◌, none, List, [], ◌∷◌, arith, contains,
  contains_iff, Member, ◌==◌, if◌then◌else◌,
}
use managed_cluster_validati.Base.Text.{concat, print_list}
use managed_cluster_validati.Admission.{
  delete, is_delete, Request, Response, allow, deny, is_allowed, answer, returned,
}
use managed_cluster_validati.Webhook.{Rule, LabelSelector, Webhook, default_label_selector}

abbrev pub allowed_service_accounts : List String
allowed_service_accounts =
    "system:serviceaccount:ocm:ocm" ∷ "system:serviceaccount:kube-system:generic-garbage-collector"
    ∷ "system:serviceaccount:multicluster-engine:ocm-foundation-sa"
    ∷ "system:serviceaccount:multicluster-hub:grc-policy-addon-sa"
    ∷ "system:serviceaccount:multicluster-engine:managedcluster-import-controller-v2"
    ∷ "system:serviceaccount:kube-system:namespace-controller" ∷ []

abbrev rules : List Rule
rules =
    record {
      operations = "DELETE" ∷ [];
      api_groups = "work.open-cluster-management.io" ∷ [];
      api_versions = "*" ∷ [];
      resources = "manifestworks" ∷ [];
      scope = "Namespaced";
    }
    ∷ []

pub authorized : Request → Response
authorized request =
    if contains allowed_service_accounts request.username
    then answer request (allow "Service account is authorized to delete ManifestWork resources")
    else if not (is_delete request.operation)
    then answer request (allow "Only DELETE operations are restricted")
    else answer request (
        deny (
          concat (
            "Only authorized service accounts can delete ManifestWork resources. Allowed service accounts: "
            ∷ print_list allowed_service_accounts
            ∷ [])))

unfoldable pub validate : Request → Bool
validate request =
    not (request.username == "")
    && (request.kind == "ManifestWork" && request.group == "work.open-cluster-management.io")

abbrev sync_set_label_selector : LabelSelector
sync_set_label_selector = record {
  match_labels = default_label_selector.match_labels;
  match_expressions =
      record {
        key = "ext-hypershift.openshift.io/cluster-type";
        operator = "In";
        values = "service-cluster" ∷ [];
      }
      ∷ record {
        key = "api.openshift.com/environment";
        operator = "NotIn";
        values = "integration" ∷ [];
      }
      ∷ [];
}

abbrev pub hook : Webhook
hook = record {
  authorized = λ request. returned (authorized request);
  uri = "/manifestworks-validation";
  validate = validate;
  name = "manifestworks-validation";
  failure_policy = "Ignore";
  match_policy = "Equivalent";
  rules = rules;
  object_selector = none;
  side_effects = "None";
  timeout_seconds = 2;
  sync_set_label_selector = sync_set_label_selector;
  classic_enabled = true;
  hypershift_enabled = false;
}

-- A request is refused exactly when it deletes a ManifestWork and its user is none of the listed
-- service accounts.
pub manifest_works_authorized_iff :
    (request : Request)
    → (is_allowed (authorized request).verdict ≡ false)
      ↔ ((request.operation ≡ delete) × ¬ Member request.username allowed_service_accounts)
unfolding authorized
manifest_works_authorized_iff request =
    ground (arith, contains_iff allowed_service_accounts request.username)
