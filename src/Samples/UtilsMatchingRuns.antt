-- ===== src/Samples/UtilsMatchingRuns.antt =====
-- Runs of the theorems of Utils/Matching.antt on concrete inputs.
use managed_cluster_validati.Base.{◌≡◌, ◌↔◌, true, Any}
use managed_cluster_validati.Admission.{update}
use managed_cluster_validati.Admission.{Request}
use managed_cluster_validati.Samples.{service_account}
use managed_cluster_validati.Utils.{has_privileged_group}
use managed_cluster_validati.Utils.Matching.{IsPrivilegedGroup, has_privileged_group_iff}

abbrev request_of_monitoring : Request
request_of_monitoring = service_account update "Pod"

has_privileged_group_iff_example :
    (has_privileged_group request_of_monitoring ≡ true)
    ↔ Any IsPrivilegedGroup request_of_monitoring.groups
has_privileged_group_iff_example = has_privileged_group_iff request_of_monitoring
