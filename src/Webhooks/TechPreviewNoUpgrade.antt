-- ===== src/Webhooks/TechPreviewNoUpgrade.antt =====
-- pkg/webhooks/techpreviewnoupgrade/techpreviewnoupgrade.go: the TechPreviewNoUpgrade feature gate is not
-- set.
use managed_cluster_validati.Base.{
  String, ◌≡◌, ◌≢◌, ◌↔◌, Bool, true, not, ◌&&◌, none, List, [], ◌∷◌, arith, ◌==◌, eq_iff,
  if◌then◌else◌,
}
use managed_cluster_validati.Admission.{
  Request, Response, allow, deny, errored, is_allowed, answer, returned, Result, ok, fail, Decoder,
}
use managed_cluster_validati.Webhook.{Rule, Webhook, default_label_selector}

abbrev rules : List Rule
rules =
    record {
      operations = "CREATE" ∷ "UPDATE" ∷ [];
      api_groups = "config.openshift.io" ∷ [];
      api_versions = "*" ∷ [];
      resources = "featuregates" ∷ [];
      scope = "Cluster";
    }
    ∷ []

pub record FeatureGate : Type 0 where
  pub feature_set : String

-- `featureGate` is not nil where it was rendered.
unfoldable pub render_feature_gate : Decoder FeatureGate → Request → Result FeatureGate
render_feature_gate decoder request = decoder.decode_raw request.object

authorize_rendered : Request → Result FeatureGate → Response
authorize_rendered request (fail err) = answer request (errored 400 err)
authorize_rendered request (ok feature_gate) =
    if feature_gate.feature_set == "TechPreviewNoUpgrade"
    then answer request (deny "The TechPreviewNoUpgrade Feature Gate is not allowed")
    else answer request (allow "FeatureGate operation is allowed")

pub authorized : Decoder FeatureGate → Request → Response
unfolding authorize_rendered
authorized decoder request = authorize_rendered request (render_feature_gate decoder request)

unfoldable pub validate : Request → Bool
validate request = not (request.username == "") && request.kind == "FeatureGate"

abbrev pub hook : Decoder FeatureGate → Webhook
hook decoder = record {
  authorized = λ request. returned (authorized decoder request);
  uri = "/techpreviewnoupgrade-validation";
  validate = validate;
  name = "techpreviewnoupgrade-validation";
  failure_policy = "Ignore";
  match_policy = "Equivalent";
  rules = rules;
  object_selector = none;
  side_effects = "None";
  timeout_seconds = 1;
  sync_set_label_selector = default_label_selector;
  classic_enabled = true;
  hypershift_enabled = true;
}

-- A request is allowed exactly when its object decodes to a FeatureGate of another feature set.
pub tech_preview_no_upgrade_authorized_iff :
    (decoder : Decoder FeatureGate) (request : Request) (feature_gate : FeatureGate)
    → render_feature_gate decoder request ≡ ok feature_gate
    → (is_allowed (authorized decoder request).verdict ≡ true)
      ↔ (feature_gate.feature_set ≢ "TechPreviewNoUpgrade")
unfolding authorized
tech_preview_no_upgrade_authorized_iff decoder request feature_gate e =
    ground (arith, eq_iff feature_gate.feature_set "TechPreviewNoUpgrade")
