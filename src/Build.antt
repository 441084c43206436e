-- ===== src/Build.antt =====
-- build/resources.go: which webhooks of the table get a configuration in the SelectorSyncSet
-- template, and what each configuration says. The other manifests are in Build/Manifests and Build/Workloads.
pub mod Selection
pub mod Order
pub mod Package
pub mod Manifests
pub mod Workloads
pub mod Template
use Prim.Native.String
use managed_cluster_validati.Base.{
  ℕ, String, Bool, true, false, not, ◌&&◌, List, [], ◌∷◌, Option, none, some, any, contains, ◌==◌,
  if◌then◌else◌, length, ltb,
}
use managed_cluster_validati.Base.Text.{split, has_suffix}
use managed_cluster_validati.Webhook.{Rule, LabelSelector, Webhook}

-- The flags that the loop reads.
pub record Flags : Type 0 where
  pub excludes : String
  pub only : String
  pub namespace : String

abbrev pub service_name : String
service_name = "validation-webhook"

pub data ConfigurationKind : Type 0 where
  validating mutating : ConfigurationKind

-- ValidatingWebhookConfiguration and MutatingWebhookConfiguration, which have one webhook each.
pub record Configuration : Type 0 where
  pub kind : ConfigurationKind
  pub name : String
  pub annotations : List (String × String)
  pub admission_review_versions : List String
  pub timeout_seconds : ℕ
  pub side_effects : String
  pub match_policy : String
  pub webhook_name : String
  pub object_selector : Option LabelSelector
  pub failure_policy : String
  pub service_namespace : String
  pub service_path : String
  pub service_name : String
  pub rules : List Rule

abbrev create_configuration : ConfigurationKind → Flags → Webhook → Configuration
create_configuration kind flags hook = record {
  kind = kind;
  name = String.◌++◌ "sre-" hook.name;
  annotations = ("service.beta.openshift.io/inject-cabundle", "true") ∷ [];
  admission_review_versions = "v1" ∷ [];
  timeout_seconds = hook.timeout_seconds;
  side_effects = hook.side_effects;
  match_policy = hook.match_policy;
  webhook_name = String.◌++◌ hook.name ".managed.openshift.io";
  object_selector = hook.object_selector;
  failure_policy = hook.failure_policy;
  service_namespace = flags.namespace;
  service_path = hook.uri;
  service_name = service_name;
  rules = hook.rules;
}

abbrev pub create_validating_webhook_configuration : Flags → Webhook → Configuration
create_validating_webhook_configuration flags hook =
    create_configuration ConfigurationKind.validating flags hook

abbrev pub create_mutating_webhook_configuration : Flags → Webhook → Configuration
create_mutating_webhook_configuration flags hook =
    create_configuration ConfigurationKind.mutating flags hook

unfoldable pub slice_contains : String → List String → Bool
slice_contains needle haystack = any (λ hay. hay == needle) haystack

-- `strings.Split(s, "")`: one part for each character, and none for the empty string.
unfoldable pub explode : String → List String
explode String.[] = []
explode (String.◌∷◌ c s) = (String.◌∷◌ c String.[]) ∷ explode s

unfoldable pub is_empty_rules : List Rule → Bool
is_empty_rules [] = true
is_empty_rules (_ ∷ _) = false

-- `len(onlyInclude) > 0 && !sliceContains(hook().Name(), onlyInclude)`
unfoldable pub is_left_out : String → List String → Bool
is_left_out name only_include =
    ltb 0 (length only_include) && not (slice_contains name only_include)

-- An added resource, with the selector it is added under; the resources of a run, or its panic on a
-- URI that was seen before.
abbrev pub Resources : Type 0
Resources = List (LabelSelector × Configuration)

abbrev added : LabelSelector × Configuration → Option Resources → Option Resources
added resource none = none
added resource (some resources) = some (resource ∷ resources)

-- The part of the loop's body behind the check of the URIs: what the hook adds, if it adds anything.
unfoldable pub resource_of : Flags → String → Webhook → Option (LabelSelector × Configuration)
resource_of flags hook_name hook =
    if not hook.classic_enabled
    then none
    else if is_empty_rules hook.rules
    then none
    else if slice_contains hook.name (split b',' flags.excludes)
    then none
    else if is_left_out hook.name (explode flags.only)
    then none
    else if has_suffix hook_name "-mutation"
    then some (hook.sync_set_label_selector, create_mutating_webhook_configuration flags hook)
    else some (hook.sync_set_label_selector, create_validating_webhook_configuration flags hook)

unfoldable pub add_resource :
    Option (LabelSelector × Configuration) → Option Resources → Option Resources
add_resource none resources = resources
add_resource (some resource) resources = added resource resources

-- The loop over the sorted names. `seen` holds the URIs that were met.
unfoldable pub add_hooks : Flags → List String → List (String × Webhook) → Option Resources
add_hooks flags seen [] = some []
add_hooks flags seen ((hook_name, hook) ∷ hooks) =
    let rest = add_hooks flags (hook.uri ∷ seen) hooks in
    if contains seen hook.uri then none else add_resource (resource_of flags hook_name hook) rest
