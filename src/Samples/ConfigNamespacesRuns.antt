-- ===== src/Samples/ConfigNamespacesRuns.antt =====
-- Runs of the theorems of Config/Namespaces.antt on concrete inputs.
use managed_cluster_validati.Base.{◌≡◌, ◌↔◌, true}
use managed_cluster_validati.Config.{is_privileged_namespace}
use managed_cluster_validati.Config.Namespaces.{IsPrivilegedNamespace, is_privileged_namespace_iff}

is_privileged_namespace_iff_example :
    (is_privileged_namespace "openshift-monitoring" ≡ true)
    ↔ IsPrivilegedNamespace "openshift-monitoring"
is_privileged_namespace_iff_example = is_privileged_namespace_iff ("openshift-monitoring")
