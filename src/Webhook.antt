-- ===== src/Webhook.antt =====
-- pkg/webhooks/register.go: what a webhook offers to the dispatcher and to the build. `Doc`, the
-- text for the documentation, is left out.
use managed_cluster_validati.Base.{ℕ, String, Bool, Option, List, [], ◌∷◌}
use managed_cluster_validati.Admission.{Request, Outcome}

-- admissionregv1.RuleWithOperations
pub record Rule : Type 0 where
  pub operations : List String
  pub api_groups : List String
  pub api_versions : List String
  pub resources : List String
  pub scope : String

-- metav1.LabelSelectorRequirement and metav1.LabelSelector
pub record Requirement : Type 0 where
  pub key : String
  pub operator : String
  pub values : List String

pub record LabelSelector : Type 0 where
  pub match_labels : List (String × String)
  pub match_expressions : List Requirement

pub record Webhook : Type 0 where
  pub authorized : Request → Outcome
  pub uri : String
  pub validate : Request → Bool
  pub name : String
  pub failure_policy : String
  pub match_policy : String
  pub rules : List Rule
  pub object_selector : Option LabelSelector
  pub side_effects : String
  pub timeout_seconds : ℕ
  pub sync_set_label_selector : LabelSelector
  pub classic_enabled : Bool
  pub hypershift_enabled : Bool

-- utils.DefaultLabelSelector, in pkg/webhooks/utils/utils.go
abbrev pub default_label_selector : LabelSelector
default_label_selector = record {
  match_labels = ("api.openshift.com/managed", "true") ∷ [];
  match_expressions = [];
}
