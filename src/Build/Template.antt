-- ===== src/Build/Template.antt =====
-- build/resources.go: the SelectorSyncSets of the template, from the first `Add` to the rendering.
-- json.Marshal of the DaemonSet is a parameter, as its tree; a resource is what `Add` is given.
pub mod Resources
use managed_cluster_validati.Base.{String, List, [], ◌∷◌, ◌++◌, Option, none, some}
use managed_cluster_validati.Admission.{Attempt, Result}
use managed_cluster_validati.Webhook.{LabelSelector, default_label_selector}
use managed_cluster_validati.Server.Dispatcher.{Hooks}
use managed_cluster_validati.SyncSet.{
  DeepEqual, SelectorSyncSet, add_all, render_selector_sync_sets,
}
use managed_cluster_validati.SyncSet.Encode.{Json, encode_and_fix_daemonset}
use managed_cluster_validati.Build.{Flags, Configuration}
use managed_cluster_validati.Build.Order.{build_template}
use managed_cluster_validati.Build.Manifests.{
  ManifestFlags, Plain, Role, Binding, ServiceMonitor, Service, create_namespace,
  create_service_account, create_role, create_role_binding, create_cluster_role,
  create_cluster_role_binding, create_prometheus_role, create_promethus_role_binding,
  create_service_monitor, create_ca_cert_config_map, create_service,
}
use managed_cluster_validati.Build.Workloads.{Workload, create_daemon_set}

pub data Resource : Type 0 where
  plain : Plain → Resource
  role : Role → Resource
  binding : Binding → Resource
  monitor : ServiceMonitor → Resource
  service : Service → Resource
  daemon_set : Json → Resource
  configuration : Configuration → Resource

abbrev pub sss_labels : List (String × String)
sss_labels =
    ("managed.openshift.io/gitHash", "${IMAGE_TAG}")
    ∷ ("managed.openshift.io/gitRepoName", "${REPO_NAME}")
    ∷ ("managed.openshift.io/osd", "true")
    ∷ []

abbrev pub first_resources : ManifestFlags → Json → List Resource
first_resources flags encoded =
    Resource.plain (create_namespace flags)
    ∷ Resource.plain (create_service_account flags)
    ∷ Resource.role (create_role flags)
    ∷ Resource.binding (create_role_binding flags)
    ∷ Resource.role create_cluster_role
    ∷ Resource.binding (create_cluster_role_binding flags)
    ∷ Resource.role (create_prometheus_role flags)
    ∷ Resource.binding (create_promethus_role_binding flags)
    ∷ Resource.monitor (create_service_monitor flags)
    ∷ Resource.plain (create_ca_cert_config_map flags)
    ∷ Resource.service (create_service flags)
    ∷ Resource.daemon_set encoded
    ∷ []

abbrev Additions : Type 0
Additions = List (LabelSelector × Resource)

abbrev pub under_default : List Resource → Additions
under_default [] = []
under_default (resource ∷ resources) = (default_label_selector, resource) ∷ under_default resources

abbrev pub of_hooks : List (LabelSelector × Configuration) → Additions
of_hooks [] = []
of_hooks ((selector, c) ∷ rest) = (selector, Resource.configuration c) ∷ of_hooks rest

abbrev pub hook_flags : String → String → ManifestFlags → Flags
hook_flags excludes only flags = record {
  excludes = excludes;
  only = only;
  namespace = flags.namespace;
}

module _ (eq : DeepEqual LabelSelector) where
  abbrev pub rendered :
      Additions
      → Option (List (LabelSelector × Configuration))
      → Attempt (List (SelectorSyncSet LabelSelector Resource))
  rendered start none = Attempt.crashed
  rendered start (some resources) =
      Attempt.done
        (render_selector_sync_sets (add_all eq [] (start ++ of_hooks resources)) sss_labels)

  -- An error of the encoding is a panic too.
  abbrev pub with_daemon_set :
      ManifestFlags
      → Option (List (LabelSelector × Configuration))
      → Attempt Json
      → Attempt (List (SelectorSyncSet LabelSelector Resource))
  with_daemon_set flags resources (Attempt.failed err) = Attempt.crashed
  with_daemon_set flags resources Attempt.crashed = Attempt.crashed
  with_daemon_set flags resources (Attempt.done encoded) =
      rendered (under_default (first_resources flags encoded)) resources

  unfoldable pub build_selector_sync_sets :
      (Workload → Result Json)
      → String
      → String
      → ManifestFlags
      → Hooks
      → List String
      → Attempt (List (SelectorSyncSet LabelSelector Resource))
  build_selector_sync_sets marshal excludes only flags table walk =
      with_daemon_set flags (build_template (hook_flags excludes only flags) table walk) (
        encode_and_fix_daemonset (create_daemon_set flags).spec.service_account_name
          (marshal (create_daemon_set flags)))
