-- ===== src/Webhooks/NetworkOperator.antt =====
-- pkg/webhooks/networkoperator/networkoperator.go: the migration of a cluster's network is set by
-- privileged users. The user's fields are read there through `AdmissionRequest.UserInfo` and through
-- the embedded `UserInfo`, which are one field. Go's `==` on the structs of openshift/api that the code
-- compares whole, FeaturesMigration and MTUMigrationValues, is a parameter.
pub mod Changes
use managed_cluster_validati.Base.{
  String, ◌≡◌, ◌↔◌, ◌⊎◌, Bool, true, false, not, ◌&&◌, ◌||◌, Option, none, some, List, [], ◌∷◌,
  arith, any, Any, any_iff, contains, contains_iff, Member, ◌==◌, eq_iff, if◌then◌else◌,
}
use managed_cluster_validati.Admission.{
  update, is_update, Request, Response, errored, is_allowed, answer, returned, Result, ok, fail,
  Decoder,
}
use managed_cluster_validati.Utils.{webhook_response}
use managed_cluster_validati.Webhook.{Rule, Webhook, default_label_selector}

abbrev rules : List Rule
rules =
    record {
      operations = "UPDATE" ∷ [];
      api_groups = "operator.openshift.io" ∷ [];
      api_versions = "*" ∷ [];
      resources = "network" ∷ "networks" ∷ [];
      scope = "Cluster";
    }
    ∷ []

abbrev pub allowed_users : List String
allowed_users =
    "backplane-cluster-admin"
    ∷ "system:serviceaccount:openshift-network-operator:cluster-network-operator"
    ∷ "system:serviceaccount:openshift-managed-upgrade-operator:managed-upgrade-operator" ∷ []

abbrev pub sre_admin_groups : List String
sre_admin_groups = "system:serviceaccounts:openshift-backplane-srep" ∷ []

-- `none` is a nil pointer.
pub record MtuMigration (V : Type 0) : Type 0 where
  pub network : Option V
  pub machine : Option V

pub record NetworkMigration (F V : Type 0) : Type 0 where
  pub network_type : String
  pub mode : String
  pub features : Option F
  pub mtu : Option (MtuMigration V)

pub record Network (F V : Type 0) : Type 0 where
  pub migration : Option (NetworkMigration F V)

-- Two nil pointers, or two pointers whose targets are not told apart.
unfoldable pub differ : {A : Type 0} → (A → A → Bool) → Option A → Option A → Bool
differ test none none = false
differ test none (some _) = true
differ test (some _) none = true
differ test (some a) (some b) = test a b

module _ {F V : Type 0} (same_features : F → F → Bool) (same_values : V → V → Bool) where
  unfoldable pub mtu_differs : MtuMigration V → MtuMigration V → Bool
  unfolding differ
  mtu_differs old new =
      if differ (λ a b. not (same_values a b)) old.network new.network
      then true
      else differ (λ a b. not (same_values a b)) old.machine new.machine

  unfoldable pub migration_differs : NetworkMigration F V → NetworkMigration F V → Bool
  unfolding differ mtu_differs
  migration_differs old new =
      if not (old.network_type == new.network_type)
      then true
      else if not (old.mode == new.mode)
      then true
      else if differ (λ a b. not (same_features a b)) old.features new.features
      then true
      else differ mtu_differs old.mtu new.mtu

  unfoldable pub has_critical_migration_field_changes : Network F V → Network F V → Bool
  unfolding differ migration_differs
  has_critical_migration_field_changes old_obj new_obj =
      differ migration_differs old_obj.migration new_obj.migration

unfoldable pub render_network :
    {F V : Type 0} → Decoder (Network F V) → Request → Result (Network F V)
render_network decoder request = decoder.decode_raw request.object

unfoldable pub render_old_network :
    {F V : Type 0} → Decoder (Network F V) → Request → Result (Network F V)
render_old_network decoder request = decoder.decode_raw request.old_object

-- The groups are looked through twice in the source, in the same field.
is_allowed_user_group : Request → Bool
is_allowed_user_group request =
    contains allowed_users request.username
    || any (λ group. contains request.groups group) sre_admin_groups

authorize_change : Request → Bool → Response
authorize_change request changes =
    if changes
    then (if is_allowed_user_group request
        then webhook_response request true
            "Privileged users are allowed to modify critical migration fields"
        else webhook_response request false
            "Modification of critical migration fields (spec.migration.networkType and related migration configuration) is not allowed, even for cluster-admin users. These fields are managed by the Cluster Network Operator and manual changes can disrupt CNI migrations.")
    else webhook_response request true "Non-critical field modifications are allowed"

module _ {F V : Type 0} (same_features : F → F → Bool) (same_values : V → V → Bool) where
  authorize_networks : Request → Result (Network F V) → Result (Network F V) → Response
  unfolding authorize_change
  authorize_networks request (fail err) _ = answer request (errored 400 err)
  authorize_networks request (ok object) (fail err) = answer request (errored 400 err)
  authorize_networks request (ok object) (ok old_object) =
      authorize_change request
        (has_critical_migration_field_changes same_features same_values old_object object)

  pub authorized : Decoder (Network F V) → Request → Response
  unfolding authorize_networks
  authorized decoder request =
      if is_update request.operation
      then authorize_networks request (render_network decoder request)
          (render_old_network decoder request)
      else webhook_response request true "CREATE and DELETE operations are allowed"

unfoldable pub validate : Request → Bool
validate request =
    not (request.username == "")
    && (request.kind == "Network" && request.group == "operator.openshift.io")

abbrev pub hook : {F V : Type 0} → (F → F → Bool) → (V → V → Bool) → Decoder (Network F V) → Webhook
hook same_features same_values decoder = record {
  authorized = λ request. returned (authorized same_features same_values decoder request);
  uri = "/network-operator-validation";
  validate = validate;
  name = "network-operator-validation";
  failure_policy = "Ignore";
  match_policy = "Equivalent";
  rules = rules;
  object_selector = none;
  side_effects = "None";
  timeout_seconds = 2;
  sync_set_label_selector = default_label_selector;
  classic_enabled = true;
  hypershift_enabled = true;
}
