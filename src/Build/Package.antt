-- ===== src/Build/Package.antt =====
-- build/resources.go: the loop that adds the webhooks to the package for hosted control planes. What
-- json.Marshal makes of a configuration is a parameter, as its tree.
pub mod Contents
use Prim.Native.String
use managed_cluster_validati.Base.{
  ℕ, String, Bool, true, false, not, List, [], ◌∷◌, Option, none, some, contains, if◌then◌else◌,
}
use managed_cluster_validati.Base.Text.{split, has_suffix, concat}
use managed_cluster_validati.Admission.{Attempt, Result}
use managed_cluster_validati.Webhook.{Rule, LabelSelector, Webhook}
use managed_cluster_validati.Registry.{insert}
use managed_cluster_validati.SyncSet.Encode.{Json, encode_and_fix_ca}
use managed_cluster_validati.Build.{
  Flags, ConfigurationKind, Configuration, create_validating_webhook_configuration,
  create_mutating_webhook_configuration, service_name, slice_contains, explode, is_empty_rules,
  is_left_out,
}

abbrev pko_phase_annotation : String
pko_phase_annotation = "package-operator.run/phase"

abbrev ca_bundle_annotation : String
ca_bundle_annotation = "service.beta.openshift.io/inject-cabundle"

abbrev pub webhooks_phase : String
webhooks_phase = "webhooks"

-- A configuration that is reached by a URL in place of a service.
pub record PackagedConfiguration : Type 0 where
  pub kind : ConfigurationKind
  pub name : String
  pub annotations : List (String × String)
  pub admission_review_versions : List String
  pub timeout_seconds : ℕ
  pub side_effects : String
  pub match_policy : String
  pub webhook_name : String
  pub object_selector : Option LabelSelector
  pub failure_policy : String
  pub url : String
  pub ca_bundle : String
  pub rules : List Rule

abbrev packaged : Configuration → String → String → PackagedConfiguration
packaged configuration uri phase = record {
  kind = configuration.kind;
  name = configuration.name;
  annotations =
      insert ca_bundle_annotation "false"
        (insert pko_phase_annotation phase configuration.annotations);
  admission_review_versions = configuration.admission_review_versions;
  timeout_seconds = configuration.timeout_seconds;
  side_effects = configuration.side_effects;
  match_policy = configuration.match_policy;
  webhook_name = configuration.webhook_name;
  object_selector = configuration.object_selector;
  failure_policy = configuration.failure_policy;
  url =
      concat (
        "https://" ∷ service_name ∷ ".{{.package.metadata.namespace}}.svc.cluster.local" ∷ uri
        ∷ []);
  ca_bundle = "{{.config.serviceca | b64enc }}";
  rules = configuration.rules;
}

abbrev pub create_packaged_validating_webhook_configuration :
    Flags → Webhook → String → PackagedConfiguration
create_packaged_validating_webhook_configuration flags webhook phase =
    packaged (create_validating_webhook_configuration flags webhook) webhook.uri phase

abbrev pub create_packaged_mutating_webhook_configuration :
    Flags → Webhook → String → PackagedConfiguration
create_packaged_mutating_webhook_configuration flags webhook phase =
    packaged (create_mutating_webhook_configuration flags webhook) webhook.uri phase

-- The configuration that a webhook adds to the package, if it adds one.
unfoldable pub packaged_of : Flags → String → Webhook → Option PackagedConfiguration
packaged_of flags hook_name hook =
    if not hook.hypershift_enabled
    then none
    else if is_empty_rules hook.rules
    then none
    else if slice_contains hook.name (split b',' flags.excludes)
    then none
    else if is_left_out hook.name (explode flags.only)
    then none
    else if has_suffix hook_name "-mutation"
    then some (create_packaged_mutating_webhook_configuration flags hook webhooks_phase)
    else some (create_packaged_validating_webhook_configuration flags hook webhooks_phase)

abbrev pub add_encoded : Attempt Json → Attempt (List Json) → Attempt (List Json)
add_encoded (Attempt.failed err) rest = Attempt.failed err
add_encoded Attempt.crashed rest = Attempt.crashed
add_encoded (Attempt.done tree) (Attempt.failed err) = Attempt.failed err
add_encoded (Attempt.done tree) Attempt.crashed = Attempt.crashed
add_encoded (Attempt.done tree) (Attempt.done trees) = Attempt.done (tree ∷ trees)

module _ (marshal : PackagedConfiguration → Result Json) where
  abbrev pub encoded : PackagedConfiguration → Attempt Json
  encoded configuration = encode_and_fix_ca (configuration.ca_bundle ∷ []) (marshal configuration)

  unfoldable pub add_packaged :
      Option PackagedConfiguration → Attempt (List Json) → Attempt (List Json)
  add_packaged none rest = rest
  add_packaged (some configuration) rest = add_encoded (encoded configuration) rest

  -- The loop over the sorted names: what it appends to the package, os.Exit(1) as an error, or the
  -- panic on a URI that was seen before.
  unfoldable pub package_hooks : Flags → List String → List (String × Webhook) → Attempt (List Json)
  unfolding add_packaged packaged_of
  package_hooks flags seen [] = Attempt.done []
  package_hooks flags seen ((hook_name, hook) ∷ hooks) =
      let rest = package_hooks flags (hook.uri ∷ seen) hooks in
      if contains seen hook.uri
      then Attempt.crashed
      else add_packaged (packaged_of flags hook_name hook) rest
