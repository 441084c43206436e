-- ===== src/Build/Manifests/Consistency.antt =====
-- The config map of the CA in build/resources.go, and the workloads that mount it.
use managed_cluster_validati.Base.{String, ◌≡◌, ◌↔◌, ◌⊎◌, inl, inr, Any, ap}
use managed_cluster_validati.Build.Manifests.{
  ManifestFlags, Plain, create_ca_cert_config_map, create_packaged_ca_cert_config_map,
}
use managed_cluster_validati.Build.Workloads.{
  VolumeSource, Workload, create_daemon_set, create_packaged_deployment,
}

-- The workload mounts the config map.
abbrev pub HasConfigMap : Plain → Workload → Type 0
HasConfigMap cm workload =
    Any (λ volume. volume.1 ≡ VolumeSource.config_map cm.meta.name) workload.spec.volumes

mounted_name :
    (secret_name ca_bundle_name : String)
    → (VolumeSource.secret secret_name ≡ VolumeSource.config_map "webhook-cert")
      ⊎ (VolumeSource.config_map ca_bundle_name ≡ VolumeSource.config_map "webhook-cert")
      ⊎ ⊥
    → ca_bundle_name ≡ "webhook-cert"
mounted_name secret_name ca_bundle_name (inl e) = cc
mounted_name secret_name ca_bundle_name (inr (inl e)) = cc
mounted_name secret_name ca_bundle_name (inr (inr e)) = absurd e

-- The config map that the build makes for the CA is the one that the DaemonSet and the Deployment mount
-- exactly when the flag `cabundlename` has its default value: the name of the config map is fixed.
pub ca_bundle_iff :
    (flags : ManifestFlags) (phase : String)
    → (HasConfigMap (create_ca_cert_config_map flags) (create_daemon_set flags)
        × HasConfigMap
            (create_packaged_ca_cert_config_map flags phase)
            (create_packaged_deployment flags phase))
      ↔ (flags.ca_bundle_name ≡ "webhook-cert")
ca_bundle_iff flags phase = (
  λ (mounted, _). mounted_name flags.secret_name flags.ca_bundle_name mounted,
  λ e. (inr (inl (ap VolumeSource.config_map e)), inr (inl (ap VolumeSource.config_map e))),
)
