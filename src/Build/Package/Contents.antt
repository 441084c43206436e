-- ===== src/Build/Package/Contents.antt =====
-- What the package of build/resources.go holds for the webhooks.
use Prim.Native.String
use managed_cluster_validati.Base.{
  String, ◌≡◌, refl, ◌≢◌, false, List, [], ◌∷◌, Option, none, some, arith, contains, contains_iff,
  eq_iff, true, Bool, not, inl, inr, Bool-cases, ◌⊎◌, ◌↔◌, Member, if◌then◌else◌,
}
use managed_cluster_validati.Base.Text.{split, has_suffix, concat}
use managed_cluster_validati.Admission.{Attempt, Result, ok}
use managed_cluster_validati.Webhook.{Rule, Webhook}
use managed_cluster_validati.Registry.Keys.{IsDistinct}
use managed_cluster_validati.Server.Dispatcher.{Hooks}
use managed_cluster_validati.Server.Dispatcher.Routing.{uris}
use managed_cluster_validati.SyncSet.Encode.{
  Json, Array, Object, fields, items, item, text, get_field, encode_and_fix_ca,
}
use managed_cluster_validati.SyncSet.Encode.Fields.{
  SameBut, first, others, child, client_config, encode_and_fix_ca_lem,
}
use managed_cluster_validati.Build.{
  Flags, ConfigurationKind, slice_contains, explode, is_empty_rules, is_left_out,
}
use managed_cluster_validati.Build.Selection.{AreFresh, AreFresh-start, slice_contains_iff}
use managed_cluster_validati.Build.Package.{
  PackagedConfiguration, packaged_of, create_packaged_mutating_webhook_configuration,
  create_packaged_validating_webhook_configuration, webhooks_phase, add_packaged, package_hooks,
}

abbrev bundle : String
bundle = "{{.config.serviceca | b64enc }}"

-- The webhook is enabled for hosted control planes, has rules, is not named in the list of excludes, and
-- either no `only` is given or its name is one of its characters.
abbrev pub IsPackaged : Flags → Webhook → Type 0
IsPackaged flags hook =
    (hook.hypershift_enabled ≡ true)
    × (hook.rules ≢ [])
    × (¬ Member hook.name (split b',' flags.excludes))
    × ((explode flags.only ≡ []) ⊎ Member hook.name (explode flags.only))

abbrev kind_of : String → ConfigurationKind
kind_of hook_name =
    if has_suffix hook_name "-mutation"
    then ConfigurationKind.mutating
    else ConfigurationKind.validating

-- The configuration has the webhook's rules and policies, and reaches it at its URI by the name that the
-- service has in the hosted control plane's namespace.
abbrev pub IsOfHook : String → Webhook → PackagedConfiguration → Type 0
IsOfHook hook_name hook configuration =
    (configuration.kind ≡ kind_of hook_name)
    × (configuration.url
        ≡ concat (
            "https://" ∷ "validation-webhook" ∷ ".{{.package.metadata.namespace}}.svc.cluster.local"
            ∷ hook.uri ∷ []))
    × (configuration.webhook_name ≡ String.◌++◌ hook.name ".managed.openshift.io")
    × (configuration.rules ≡ hook.rules)
    × (configuration.failure_policy ≡ hook.failure_policy)
    × (configuration.match_policy ≡ hook.match_policy)
    × (configuration.side_effects ≡ hook.side_effects)
    × (configuration.timeout_seconds ≡ hook.timeout_seconds)
    × (configuration.object_selector ≡ hook.object_selector)

unfoldable IsResult : Flags → String → Webhook → Option PackagedConfiguration → Type 0
IsResult flags hook_name hook none = ¬ IsPackaged flags hook
IsResult flags hook_name hook (some configuration) =
    IsPackaged flags hook
    × IsOfHook hook_name hook configuration
    × (configuration.ca_bundle ≡ bundle)

is_empty_rules_iff : (rules : List Rule) → (is_empty_rules rules ≡ false) ↔ (rules ≢ [])
unfolding is_empty_rules
is_empty_rules_iff [] = ground arith
is_empty_rules_iff (rule ∷ rules) = ground arith

abbrev Adds : Option PackagedConfiguration → Type 0
Adds none = ⊥
Adds (some _) = Unit

packaged_of_iff :
    (flags : Flags) (hook_name : String) (hook : Webhook)
    → Adds (packaged_of flags hook_name hook) ↔ IsPackaged flags hook
unfolding packaged_of is_left_out
packaged_of_iff flags hook_name hook = ground (
  arith,
  is_empty_rules_iff hook.rules,
  slice_contains_iff hook.name (split b',' flags.excludes),
  slice_contains_iff hook.name (explode flags.only),
)

abbrev IsOfHookIf : String → Webhook → Option PackagedConfiguration → Type 0
IsOfHookIf hook_name hook none = Unit
IsOfHookIf hook_name hook (some configuration) =
    IsOfHook hook_name hook configuration × (configuration.ca_bundle ≡ bundle)

guard_lem :
    (P : Option PackagedConfiguration → Type 0) (b : Bool) (rest : Option PackagedConfiguration)
    → P none
    → P rest
    → P (if b then none else rest)
guard_lem P true rest h k = h
guard_lem P false rest h k = k

of_kind :
    (flags : Flags) (hook_name : String) (hook : Webhook)
    → IsOfHookIf hook_name hook (
        if has_suffix hook_name "-mutation"
        then some (create_packaged_mutating_webhook_configuration flags hook webhooks_phase)
        else some (create_packaged_validating_webhook_configuration flags hook webhooks_phase))
unfolding concat
of_kind flags hook_name hook = elim (Bool-cases (has_suffix hook_name "-mutation")) [
  | inl mutates ↦
      rw mutates ((rw mutates refl, refl, refl, refl, refl, refl, refl, refl, refl), refl)
  | inr validates ↦
      rw validates ((rw validates refl, refl, refl, refl, refl, refl, refl, refl, refl), refl)
]

packaged_of-IsOfHookIf :
    (flags : Flags) (hook_name : String) (hook : Webhook)
    → IsOfHookIf hook_name hook (packaged_of flags hook_name hook)
unfolding packaged_of
packaged_of-IsOfHookIf flags hook_name hook =
    guard_lem (IsOfHookIf hook_name hook) (not hook.hypershift_enabled) _ tt (
      guard_lem (IsOfHookIf hook_name hook) (is_empty_rules hook.rules) _ tt (
        guard_lem (IsOfHookIf hook_name hook) (slice_contains hook.name (split b',' flags.excludes))
          _ tt
          (guard_lem (IsOfHookIf hook_name hook) (is_left_out hook.name (explode flags.only)) _ tt
            (of_kind flags hook_name hook))))

IsResult-Adds :
    (flags : Flags) (hook_name : String) (hook : Webhook) (found : Option PackagedConfiguration)
    → Adds found ↔ IsPackaged flags hook
    → IsOfHookIf hook_name hook found
    → IsResult flags hook_name hook found
unfolding IsResult
IsResult-Adds flags hook_name hook none h k = h.1
IsResult-Adds flags hook_name hook (some configuration) h (of, b) = (h.0 tt, of, b)

packaged_of_lem :
    (flags : Flags) (hook_name : String) (hook : Webhook)
    → IsResult flags hook_name hook (packaged_of flags hook_name hook)
packaged_of_lem flags hook_name hook =
    IsResult-Adds flags hook_name hook (packaged_of flags hook_name hook)
      (packaged_of_iff flags hook_name hook) (packaged_of-IsOfHookIf flags hook_name hook)

-- The tree of a webhook configuration, as far as the encoding reads it.
abbrev pub IsTree : Json → Type 0
IsTree tree =
    (top : Object) × (hook : Object) × (client : Object) × (rest : Array) × (tree ≡ fields top)
    × (get_field "webhooks" top ≡ items (item (fields hook) rest))
    × (get_field "clientConfig" hook ≡ fields client)

-- The second tree is the first with the template of the CABundle in plain text.
abbrev pub IsFixed : Json → Json → Type 0
IsFixed tree tree' =
    (child "caBundle" (client_config tree') ≡ text "{{.config.serviceca | b64enc }}")
    × SameBut "webhooks" tree tree'
    × SameBut "clientConfig" (first (child "webhooks" tree)) (first (child "webhooks" tree'))
    × SameBut "caBundle" (client_config tree) (client_config tree')
    × (others (child "webhooks" tree') ≡ others (child "webhooks" tree))

bundle-ne-empty : ◌≢◌ {A = String} bundle ""
bundle-ne-empty e = ground (arith, (eq_iff bundle "").1 e)

encode_lem :
    (ca_bundle : String) (marshalled : Result Json) (tree : Json)
    → ca_bundle ≡ bundle
    → marshalled ≡ ok tree
    → IsTree tree
    → (tree' : Json) × (encode_and_fix_ca (ca_bundle ∷ []) marshalled ≡ Attempt.done tree')
      × IsFixed tree tree'
encode_lem ca_bundle marshalled tree e m (top, hook, client, rest, is_top, at_webhooks, at_config) =
    let (tree', runs, has, same, same_hook, same_client, same_rest) =
      encode_and_fix_ca_lem bundle [] top hook client rest bundle-ne-empty at_webhooks at_config in
    (
      tree',
      rw (e, m, is_top) runs,
      (
        has,
        rw is_top same,
        rw is_top (rw at_webhooks same_hook),
        rw is_top (rw at_webhooks (rw at_config same_client)),
        rw is_top (rw at_webhooks same_rest),
      ),
    )

-- One tree for each webhook that is selected, in order: what json.Marshal gives for its
-- configuration, with the bundle in plain text. The others add nothing.
pub data Packaged (marshal : PackagedConfiguration → Result Json) (flags : Flags)
    : Hooks → List Json → Type 0 where
  packaged_none : Packaged marshal flags [] []
  skipped :
      {hook_name : String} {hook : Webhook} {hooks : Hooks} {trees : List Json}
      → ¬ IsPackaged flags hook
      → Packaged marshal flags hooks trees
      → Packaged marshal flags ((hook_name, hook) ∷ hooks) trees
  added :
      {hook_name : String} {hook : Webhook} {hooks : Hooks} {trees : List Json}
      {configuration : PackagedConfiguration} {tree tree' : Json}
      → IsPackaged flags hook
      → IsOfHook hook_name hook configuration
      → marshal configuration ≡ ok tree
      → IsFixed tree tree'
      → Packaged marshal flags hooks trees
      → Packaged marshal flags ((hook_name, hook) ∷ hooks) (tree' ∷ trees)

module _ (marshal : PackagedConfiguration → Result Json)
    (marshals : (configuration : PackagedConfiguration)
      → (tree : Json) × (marshal configuration ≡ ok tree) × IsTree tree) where
  add_packaged_lem :
      (flags : Flags) (hook_name : String) (hook : Webhook) (found : Option PackagedConfiguration)
      (hooks : Hooks) (trees : List Json) (rest : Attempt (List Json))
      → IsResult flags hook_name hook found
      → rest ≡ Attempt.done trees
      → Packaged marshal flags hooks trees
      → (trees' : List Json) × (add_packaged marshal found rest ≡ Attempt.done trees')
        × Packaged marshal flags ((hook_name, hook) ∷ hooks) trees'
  unfolding add_packaged IsResult
  add_packaged_lem flags hook_name hook none hooks trees rest not_selected e h =
      (trees, e, Packaged.skipped not_selected h)
  add_packaged_lem flags hook_name hook (some configuration) hooks trees rest (selected, is_of, b) e
        h =
      let (tree, m, is_tree) = marshals configuration in
      let (tree', runs, fixed) =
        encode_lem configuration.ca_bundle (marshal configuration) tree b m is_tree in
      (tree' ∷ trees, rw (e, runs) refl, Packaged.added selected is_of m fixed h)

  package_hooks-fresh :
      (flags : Flags) (seen : List String) (hooks : Hooks)
      → AreFresh (uris hooks) seen
      → (trees : List Json) × (package_hooks marshal flags seen hooks ≡ Attempt.done trees)
        × Packaged marshal flags hooks trees
  unfolding package_hooks
  package_hooks-fresh flags seen [] fresh = ([], refl, Packaged.packaged_none)
  package_hooks-fresh flags seen ((hook_name, hook) ∷ hooks) (new, fresh) =
      let (trees, e, h) = package_hooks-fresh flags (hook.uri ∷ seen) hooks fresh in
      let unmet : contains seen hook.uri ≡ false =
        ground (arith, contains_iff seen hook.uri, new) in
      let (trees', f, k) =
        add_packaged_lem flags hook_name hook (packaged_of flags hook_name hook) hooks trees
          (package_hooks marshal flags (hook.uri ∷ seen) hooks)
          (packaged_of_lem flags hook_name hook) e h in
      (trees', rw unmet f, k)

  -- Where no two webhooks share a URI, and json.Marshal gives each configuration a tree with a first
  -- webhook and its clientConfig, the loop neither panics nor exits. It adds a tree, in order, for each
  -- webhook that is enabled for hosted control planes, has rules, is not excluded, and is named by a
  -- character of `only` if that is given; the others add nothing. The tree is json.Marshal's for a
  -- configuration with the webhook's rules and policies and its URL, mutating exactly if the name ends in
  -- `-mutation`; but for the template of the CABundle as plain text it is unchanged.
  pub package_lem :
      (flags : Flags) (hooks : Hooks)
      → IsDistinct (uris hooks)
      → (trees : List Json) × (package_hooks marshal flags [] hooks ≡ Attempt.done trees)
        × Packaged marshal flags hooks trees
  package_lem flags hooks distinct =
      package_hooks-fresh flags [] hooks ((AreFresh-start (uris hooks)).0 distinct)
