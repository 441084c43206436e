-- ===== src/Webhooks.antt =====
-- pkg/webhooks: one module for each webhook.
pub mod ClusterLogging
pub mod ClusterRole
pub mod ClusterRoleBinding
pub mod CustomResourceDefinitions
pub mod HcpNamespace
pub mod HiveOwnership
pub mod HostedCluster
pub mod HostedControlPlane
pub mod ImageContentPolicies
pub mod IngressConfig
pub mod IngressController
pub mod ManifestWorks
pub mod Namespace
pub mod NetworkOperator
pub mod NetworkPolicies
pub mod Node
pub mod Pod
pub mod PodImageSpec
pub mod PrometheusRule
pub mod RegularUser
pub mod Scc
pub mod SdnMigration
pub mod Service
pub mod ServiceAccount
pub mod TechPreviewNoUpgrade
