-- ===== src/Webhooks/SdnMigration.antt =====
-- pkg/webhooks/sdnmigration/sdnmigration.go: the network type of a cluster is not changed by customers.
use managed_cluster_validati.Base.Maps.{Labels, lookup}
use managed_cluster_validati.Base.{
  String, ◌≡◌, ◌↔◌, ◌⊎◌, Bool, true, false, not, ◌&&◌, Option, none, some, List, [], ◌∷◌, arith,
  Any, ◌==◌, eq_iff, if◌then◌else◌,
}
use managed_cluster_validati.Admission.{
  update, is_update, Request, Response, errored, is_allowed, answer, returned, Result, ok, fail,
  Decoder,
}
use managed_cluster_validati.Utils.{webhook_response, has_privileged_group}
use managed_cluster_validati.Utils.Matching.{IsPrivilegedGroup, has_privileged_group_iff}
use managed_cluster_validati.Webhook.{Rule, Webhook, default_label_selector}

abbrev rules : List Rule
rules =
    record {
      operations = "UPDATE" ∷ [];
      api_groups = "config.openshift.io" ∷ [];
      api_versions = "*" ∷ [];
      resources = "networks" ∷ [];
      scope = "Cluster";
    }
    ∷ []

pub record Network : Type 0 where
  pub annotations : Labels
  pub spec_network_type : String
  pub status_network_type : String

unfoldable pub render_network : Decoder Network → Request → Result Network
render_network decoder request = decoder.decode_raw request.object

unfoldable pub render_old_network : Decoder Network → Request → Result Network
render_old_network decoder request = decoder.decode_raw request.old_object

is_overridden : Option String → Bool
is_overridden none = false
is_overridden (some v) = v == "true"

authorize_networks : Request → Result Network → Result Network → Response
unfolding is_overridden
authorize_networks request (fail err) _ = answer request (errored 400 err)
authorize_networks request (ok object) (fail err) = answer request (errored 400 err)
authorize_networks request (ok object) (ok old_object) =
    if is_overridden (lookup "unsupported-red-hat-internal-testing" old_object.annotations)
    then webhook_response request true "`red-hat-internal-testing: true` annotation present"
    else if not (object.spec_network_type == old_object.status_network_type)
    then webhook_response request false "Changing the network type is not allowed"
    else webhook_response request true "allowed action"

pub authorized : Decoder Network → Request → Response
unfolding authorize_networks
authorized decoder request =
    if request.username == "system:admin"
    then webhook_response request true "Privileged user may access"
    else if has_privileged_group request
    then webhook_response request true "Privileged service accounts may access"
    else if is_update request.operation
    then authorize_networks request (render_network decoder request)
        (render_old_network decoder request)
    else webhook_response request false "Changing the network type is not allowed"

unfoldable pub validate : Request → Bool
validate request = not (request.username == "") && request.kind == "Network"

abbrev pub hook : Decoder Network → Webhook
hook decoder = record {
  authorized = λ request. returned (authorized decoder request);
  uri = "/sdnmigration-validation";
  validate = validate;
  name = "sdn-migration-validation";
  failure_policy = "Ignore";
  match_policy = "Equivalent";
  rules = rules;
  object_selector = none;
  side_effects = "None";
  timeout_seconds = 2;
  sync_set_label_selector = default_label_selector;
  classic_enabled = true;
  hypershift_enabled = false;
}

is_overridden_iff : (o : Option String) → (is_overridden o ≡ true) ↔ (o ≡ some "true")
unfolding is_overridden
is_overridden_iff none = ground arith
is_overridden_iff (some v) = ground (arith, eq_iff v "true")

-- An update between two networks that decode is allowed exactly when the user is system:admin or in
-- a privileged service account's group, or the old network has the override annotation, or the new
-- type is the one that the old network's status names.
pub sdn_migration_authorized_iff :
    (decoder : Decoder Network) (request : Request) (object old_object : Network)
    → request.operation ≡ update
    → render_network decoder request ≡ ok object
    → render_old_network decoder request ≡ ok old_object
    → (is_allowed (authorized decoder request).verdict ≡ true) ↔ (
        (request.username ≡ "system:admin")
        ⊎ Any IsPrivilegedGroup request.groups
        ⊎ (lookup "unsupported-red-hat-internal-testing" old_object.annotations ≡ some "true")
        ⊎ (object.spec_network_type ≡ old_object.status_network_type))
unfolding authorized webhook_response
sdn_migration_authorized_iff decoder request object old_object o e f = ground (
  arith,
  eq_iff request.username "system:admin",
  has_privileged_group_iff request,
  is_overridden_iff (lookup "unsupported-red-hat-internal-testing" old_object.annotations),
  eq_iff object.spec_network_type old_object.status_network_type,
)
