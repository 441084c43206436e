-- ===== src/Samples/SdnMigrationRuns.antt =====
-- Runs of the theorems of Webhooks/SdnMigration.antt on concrete inputs.
use managed_cluster_validati.Base.{◌≡◌, refl, ◌↔◌, ◌⊎◌, true, some, [], Any}
use managed_cluster_validati.Admission.{update}
use managed_cluster_validati.Admission.{Request, is_allowed}
use managed_cluster_validati.Base.Maps.{lookup}
use managed_cluster_validati.Samples.{customer, two_decoder}
use managed_cluster_validati.Utils.Matching.{IsPrivilegedGroup}
use managed_cluster_validati.Webhooks.SdnMigration.{
  Network, authorized, render_network, render_old_network, sdn_migration_authorized_iff,
}

abbrev sdn : Network
sdn = record {
  annotations = [];
  spec_network_type = "OpenShiftSDN";
  status_network_type = "OpenShiftSDN";
}

abbrev ovn : Network
ovn = record {
  annotations = [];
  spec_network_type = "OVNKubernetes";
  status_network_type = "OpenShiftSDN";
}

abbrev request_for_network : Request
request_for_network = customer update "Network"

sdn_migration_authorized_iff_example :
    (is_allowed (authorized (two_decoder sdn ovn) request_for_network).verdict ≡ true) ↔ (
      (request_for_network.username ≡ "system:admin")
      ⊎ Any IsPrivilegedGroup request_for_network.groups
      ⊎ (lookup "unsupported-red-hat-internal-testing" sdn.annotations ≡ some "true")
      ⊎ (ovn.spec_network_type ≡ sdn.status_network_type))
unfolding render_network render_old_network
sdn_migration_authorized_iff_example =
    sdn_migration_authorized_iff ((two_decoder sdn ovn)) request_for_network ovn sdn refl refl refl
