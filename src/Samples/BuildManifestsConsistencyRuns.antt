-- ===== src/Samples/BuildManifestsConsistencyRuns.antt =====
-- Runs of the theorems of Build/Manifests/Consistency.antt on concrete inputs.
use managed_cluster_validati.Base.{◌≡◌, ◌↔◌}
use managed_cluster_validati.Build.Manifests.{
  ManifestFlags, create_ca_cert_config_map, create_packaged_ca_cert_config_map,
}
use managed_cluster_validati.Build.Manifests.Consistency.{HasConfigMap, ca_bundle_iff}
use managed_cluster_validati.Build.Workloads.{create_daemon_set, create_packaged_deployment}

abbrev default_flags : ManifestFlags
default_flags = record {
  namespace = "openshift-validation-webhook";
  listen_port = 5000;
  secret_name = "webhook-cert";
  ca_bundle_name = "webhook-cert";
  replicas = 2;
}

ca_bundle_iff_example :
    (HasConfigMap (create_ca_cert_config_map default_flags) (create_daemon_set default_flags)
      × HasConfigMap
          (create_packaged_ca_cert_config_map default_flags "deploy")
          (create_packaged_deployment default_flags "deploy"))
    ↔ (default_flags.ca_bundle_name ≡ "webhook-cert")
ca_bundle_iff_example = ca_bundle_iff default_flags "deploy"
