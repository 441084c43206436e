-- ===== src/Config.antt =====
-- pkg/config: the namespaces that Red Hat manages, and the test of a namespace against them.
pub mod Namespaces
pub mod Generate
use managed_cluster_validati.Base.{String, Bool, List, [], ◌∷◌, ◌++◌, map}
use managed_cluster_validati.Base.Text.{concat}
use managed_cluster_validati.Regex.{Regex, exactly, starting}
use managed_cluster_validati.Utils.{regex_slice_contains}

-- The names that pkg/config/generate reads from the two config maps; each is written to
-- namespaces.go as `^name$`.
abbrev pub managed_namespaces : List String
managed_namespaces =
    "dedicated-admin" ∷ "openshift-addon-operator" ∷ "openshift-aqua"
    ∷ "openshift-aws-vpce-operator" ∷ "openshift-backplane" ∷ "openshift-backplane-cee"
    ∷ "openshift-backplane-csa" ∷ "openshift-backplane-cse" ∷ "openshift-backplane-csm"
    ∷ "openshift-backplane-managed-scripts" ∷ "openshift-backplane-mobb"
    ∷ "openshift-backplane-srep" ∷ "openshift-backplane-srep-ro" ∷ "openshift-backplane-tam"
    ∷ "openshift-cloud-ingress-operator" ∷ "openshift-codeready-workspaces" ∷ "openshift-compliance"
    ∷ "openshift-compliance-monkey" ∷ "openshift-container-security"
    ∷ "openshift-custom-domains-operator" ∷ "openshift-customer-monitoring"
    ∷ "openshift-deployment-validation-operator" ∷ "openshift-managed-node-metadata-operator"
    ∷ "openshift-file-integrity" ∷ "openshift-logging" ∷ "openshift-managed-upgrade-operator"
    ∷ "openshift-must-gather-operator" ∷ "openshift-observability-operator"
    ∷ "openshift-ocm-agent-operator" ∷ "openshift-operators-redhat" ∷ "openshift-osd-metrics"
    ∷ "openshift-rbac-permissions" ∷ "openshift-route-monitor-operator" ∷ "openshift-scanning"
    ∷ "openshift-security" ∷ "openshift-splunk-forwarder-operator" ∷ "openshift-sre-pruning"
    ∷ "openshift-suricata" ∷ "openshift-validation-webhook" ∷ "openshift-velero"
    ∷ "openshift-monitoring" ∷ "openshift" ∷ "openshift-cluster-version" ∷ "goalert" ∷ "keycloak"
    ∷ "configure-goalert-operator" ∷ "kube-system" ∷ "openshift-apiserver"
    ∷ "openshift-apiserver-operator" ∷ "openshift-authentication"
    ∷ "openshift-authentication-operator" ∷ "openshift-cloud-controller-manager"
    ∷ "openshift-cloud-controller-manager-operator" ∷ "openshift-cloud-credential-operator"
    ∷ "openshift-cloud-network-config-controller" ∷ "openshift-cluster-api"
    ∷ "openshift-cluster-csi-drivers" ∷ "openshift-cluster-machine-approver"
    ∷ "openshift-cluster-node-tuning-operator" ∷ "openshift-cluster-samples-operator"
    ∷ "openshift-cluster-storage-operator" ∷ "openshift-config" ∷ "openshift-config-managed"
    ∷ "openshift-config-operator" ∷ "openshift-console" ∷ "openshift-console-operator"
    ∷ "openshift-console-user-settings" ∷ "openshift-controller-manager"
    ∷ "openshift-controller-manager-operator" ∷ "openshift-dns" ∷ "openshift-dns-operator"
    ∷ "openshift-etcd" ∷ "openshift-etcd-operator" ∷ "openshift-host-network"
    ∷ "openshift-image-registry" ∷ "openshift-ingress" ∷ "openshift-ingress-canary"
    ∷ "openshift-ingress-operator" ∷ "openshift-insights" ∷ "openshift-kni-infra"
    ∷ "openshift-kube-apiserver" ∷ "openshift-kube-apiserver-operator"
    ∷ "openshift-kube-controller-manager" ∷ "openshift-kube-controller-manager-operator"
    ∷ "openshift-kube-scheduler" ∷ "openshift-kube-scheduler-operator"
    ∷ "openshift-kube-storage-version-migrator" ∷ "openshift-kube-storage-version-migrator-operator"
    ∷ "openshift-machine-api" ∷ "openshift-machine-config-operator" ∷ "openshift-marketplace"
    ∷ "openshift-monitoring" ∷ "openshift-multus" ∷ "openshift-network-diagnostics"
    ∷ "openshift-network-operator" ∷ "openshift-nutanix-infra" ∷ "openshift-oauth-apiserver"
    ∷ "openshift-openstack-infra" ∷ "openshift-operator-lifecycle-manager" ∷ "openshift-operators"
    ∷ "openshift-ovirt-infra" ∷ "openshift-sdn" ∷ "openshift-ovn-kubernetes"
    ∷ "openshift-platform-operators" ∷ "openshift-route-controller-manager" ∷ "openshift-service-ca"
    ∷ "openshift-service-ca-operator" ∷ "openshift-user-workload-monitoring"
    ∷ "openshift-vsphere-infra" ∷ []

-- The defaults of pkg/config/generate: ^default$, ^openshift$, ^kube-.*, ^redhat-.*
abbrev pub default_namespaces : List Regex
default_namespaces =
    exactly "default" ∷ exactly "openshift" ∷ starting "kube-" ∷ starting "redhat-" ∷ []

-- What pkg/config/generate writes for names that are no patterns themselves.
pub generate : List String → List Regex
generate names = default_namespaces ++ map exactly names

pub privileged_namespaces : List Regex
unfolding generate
privileged_namespaces = generate managed_namespaces

pub is_privileged_namespace : String → Bool
is_privileged_namespace ns = regex_slice_contains ns privileged_namespaces

-- The patterns as they are written, for the messages that list them.
abbrev pub anchored : String → String
anchored name = concat ("^" ∷ name ∷ "$" ∷ [])

pub privileged_namespace_texts : List String
privileged_namespace_texts =
    "^default$" ∷ "^openshift$" ∷ "^kube-.*" ∷ "^redhat-.*" ∷ map anchored managed_namespaces
