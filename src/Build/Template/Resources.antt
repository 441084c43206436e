-- ===== src/Build/Template/Resources.antt =====
-- Which resources the SelectorSyncSets of build/resources.go hold.
use mathlib.Core.List.{Permᴰ}
use managed_cluster_validati.Base.{
  inl, inr, false, arith, eq_iff, Bool-cases, String, ◌≡◌, ◌≢◌, ◌==◌, if◌then◌else◌, refl, ◌∙◌,
  true, List, [], ◌∷◌, ◌++◌,
}
use managed_cluster_validati.Base.Text.Order.{IsSorted}
use managed_cluster_validati.Admission.{Attempt, Result, ok}
use managed_cluster_validati.Webhook.{LabelSelector, default_label_selector}
use managed_cluster_validati.Registry.{keys}
use managed_cluster_validati.Registry.Keys.{IsDistinct}
use managed_cluster_validati.Server.Dispatcher.{Hooks}
use managed_cluster_validati.Server.Dispatcher.Routing.{uris}
use managed_cluster_validati.SyncSet.{DeepEqual, SelectorSyncSet}
use managed_cluster_validati.SyncSet.Grouping.{
  HasDistinctSelectors, objects_under, resources_under, rendered_resources, rendered_distinct,
}
use managed_cluster_validati.SyncSet.Encode.{Json, Object, fields, text, get_field}
use managed_cluster_validati.SyncSet.Encode.Fields.{
  child, pod_spec, SameOutsidePods, encode_and_fix_daemonset_lem,
}
use managed_cluster_validati.Build.Selection.{resources_of}
use managed_cluster_validati.Build.Order.{build_template_lem}
use managed_cluster_validati.Build.Manifests.{
  ManifestFlags, create_namespace, create_service_account, create_role, create_role_binding,
  create_cluster_role, create_cluster_role_binding, create_prometheus_role,
  create_promethus_role_binding, create_service_monitor, create_ca_cert_config_map, create_service,
}
use managed_cluster_validati.Build.Workloads.{Workload, create_daemon_set}
use managed_cluster_validati.Build.Template.{
  Resource, under_default, of_hooks, sss_labels, hook_flags, build_selector_sync_sets,
}

-- The second tree is the first with an empty serviceAccount in the spec of its pods.
abbrev pub IsEncoded : Json → Object → Json → Type 0
IsEncoded tree pods encoded =
    (child "serviceAccount" (pod_spec encoded) ≡ text "")
    × ((other : String)
        → other ≢ "serviceAccount"
        → child other (pod_spec encoded) ≡ get_field other pods)
    × SameOutsidePods tree encoded

other_field :
    (name value other : String) (pods : Object) (encoded : Json)
    → name ≡ value
    → value ≢ ""
    → child "serviceAccountName" (pod_spec encoded)
      ≡ (if name == "" then text "" else get_field "serviceAccountName" pods)
    → (other ≢ "serviceAccountName" → child other (pod_spec encoded) ≡ get_field other pods)
    → child other (pod_spec encoded) ≡ get_field other pods
other_field name value other pods encoded e given at_name h =
    let named : (name == "") ≡ false = ground (arith, eq_iff name "") in
    let kept : child "serviceAccountName" (pod_spec encoded) ≡ get_field "serviceAccountName" pods =
      at_name ∙ rw named refl in
    elim (Bool-cases (other == "serviceAccountName")) [
      | inl same ↦ rw ((eq_iff other "serviceAccountName").0 same) kept
      | inr differs ↦ h (λ f. ground (arith, eq_iff other "serviceAccountName"))
    ]

account_given : ◌≢◌ {A = String} "validation-webhook" ""
account_given e = ground (arith, (eq_iff "validation-webhook" "").1 e)

-- The manifests for classic clusters, each once.
abbrev pub twelve_manifests : ManifestFlags → Json → List Resource
twelve_manifests flags encoded =
    Resource.plain (create_namespace flags)
    ∷ Resource.plain (create_service_account flags)
    ∷ Resource.role (create_role flags)
    ∷ Resource.binding (create_role_binding flags)
    ∷ Resource.role create_cluster_role
    ∷ Resource.binding (create_cluster_role_binding flags)
    ∷ Resource.role (create_prometheus_role flags)
    ∷ Resource.binding (create_promethus_role_binding flags)
    ∷ Resource.monitor (create_service_monitor flags)
    ∷ Resource.plain (create_ca_cert_config_map flags)
    ∷ Resource.service (create_service flags)
    ∷ Resource.daemon_set encoded
    ∷ []

module _ (eq : DeepEqual LabelSelector) where
  -- What is added under the default selector comes first in its set.
  objects_under_default :
      (resources : List Resource) (rest : List (LabelSelector × Resource))
      → objects_under eq default_label_selector (under_default resources ++ rest)
        ≡ resources ++ objects_under eq default_label_selector rest
  unfolding objects_under
  objects_under_default [] rest = refl
  objects_under_default (resource ∷ resources) rest =
      let same : eq.deep_equal default_label_selector default_label_selector ≡ true =
        (eq.deep_equal_iff default_label_selector default_label_selector).1 refl in
      rw (same, objects_under_default resources rest) refl

  -- Where json.Marshal gives the DaemonSet a tree with the spec of its pods, and no two webhooks share a
  -- name or a URI, the build of the template does not panic, whatever the order in which the map is
  -- walked. No two of its sets have the same selector. The set of a selector holds what was added under it,
  -- in order: the twelve manifests come first in the set of the default selector, and the
  -- configurations of the webhooks follow in the order of the webhooks' names. The DaemonSet among the
  -- manifests is the tree of json.Marshal with an empty serviceAccount in the spec of its pods; all other
  -- fields of that spec, the serviceAccountName too, and all around it are as they were.
  pub build_selector_sync_sets_lem :
      (marshal : Workload → Result Json) (excludes only : String) (flags : ManifestFlags)
      (table : Hooks) (walk : List String) (top spec template pods : Object)
      → IsDistinct (keys table)
      → IsDistinct (uris table)
      → Permᴰ (keys table) walk
      → marshal (create_daemon_set flags) ≡ ok (fields top)
      → get_field "spec" top ≡ fields spec
      → get_field "template" spec ≡ fields template
      → get_field "spec" template ≡ fields pods
      → (sets : List (SelectorSyncSet LabelSelector Resource)) × (hooks : Hooks) × (encoded : Json)
        × (build_selector_sync_sets eq marshal excludes only flags table walk ≡ Attempt.done sets)
        × IsEncoded (fields top) pods encoded
        × Permᴰ table hooks
        × IsSorted (keys hooks)
        × HasDistinctSelectors sets
        × ((key : LabelSelector)
            → resources_under eq key sets
              ≡ objects_under eq key (
                  under_default (twelve_manifests flags encoded)
                  ++ of_hooks (resources_of (hook_flags excludes only flags) hooks)))
        × (resources_under eq default_label_selector sets
            ≡ twelve_manifests flags encoded
              ++ objects_under eq default_label_selector
                  (of_hooks (resources_of (hook_flags excludes only flags) hooks)))
  unfolding build_selector_sync_sets
  build_selector_sync_sets_lem marshal excludes only flags table walk top spec template pods names
        distinct p m a b c =
      let (encoded, runs, empty, names_it, others, around) =
        encode_and_fix_daemonset_lem (create_daemon_set flags).spec.service_account_name top spec
          template pods a b c in
      let (hooks, built, q, _, sorted) =
        build_template_lem (hook_flags excludes only flags) table walk names distinct p in
      let added =
        under_default (twelve_manifests flags encoded)
        ++ of_hooks (resources_of (hook_flags excludes only flags) hooks) in
      (
        _,
        hooks,
        encoded,
        rw (m, runs, built) refl,
        (
          empty,
          λ other ne.
              other_field (create_daemon_set flags).spec.service_account_name "validation-webhook"
                other pods encoded refl account_given names_it (λ ne'. others other ne ne'),
          around,
        ),
        q,
        sorted,
        rendered_distinct eq sss_labels added,
        λ key. rendered_resources eq sss_labels added key,
        rendered_resources eq sss_labels added default_label_selector
            ∙ objects_under_default (twelve_manifests flags encoded)
                (of_hooks (resources_of (hook_flags excludes only flags) hooks)),
      )
