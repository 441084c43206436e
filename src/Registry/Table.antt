-- ===== src/Registry/Table.antt =====
-- pkg/webhooks/add_*.go: the webhooks, registered in the order of their files' names. The decoders of
-- their objects are parameters, and so are what PodImageSpec reads of the cluster, and the types and
-- comparisons of the fields that NetworkOperator compares.
pub mod Properties
use managed_cluster_validati.Base.{String, Bool, List, []}
use managed_cluster_validati.Admission.{Decoder}
use managed_cluster_validati.Webhook.{Webhook}
use managed_cluster_validati.Registry.{insert}
use managed_cluster_validati.Server.Dispatcher.{Hooks}
use managed_cluster_validati.Webhooks.ClusterLogging
use managed_cluster_validati.Webhooks.ClusterLogging.{ClusterLogging}
use managed_cluster_validati.Webhooks.ClusterRole
use managed_cluster_validati.Webhooks.ClusterRole.{ClusterRole}
use managed_cluster_validati.Webhooks.ClusterRoleBinding
use managed_cluster_validati.Webhooks.ClusterRoleBinding.{ClusterRoleBinding}
use managed_cluster_validati.Webhooks.CustomResourceDefinitions
use managed_cluster_validati.Webhooks.CustomResourceDefinitions.{CustomResourceDefinition}
use managed_cluster_validati.Webhooks.HcpNamespace
use managed_cluster_validati.Webhooks.HiveOwnership
use managed_cluster_validati.Webhooks.HostedCluster
use managed_cluster_validati.Webhooks.HostedControlPlane
use managed_cluster_validati.Webhooks.ImageContentPolicies
use managed_cluster_validati.Webhooks.IngressConfig
use managed_cluster_validati.Webhooks.IngressController
use managed_cluster_validati.Webhooks.IngressController.{IngressController}
use managed_cluster_validati.Webhooks.ManifestWorks
use managed_cluster_validati.Webhooks.Namespace
use managed_cluster_validati.Webhooks.Namespace.{Namespace}
use managed_cluster_validati.Webhooks.NetworkOperator
use managed_cluster_validati.Webhooks.NetworkPolicies
use managed_cluster_validati.Webhooks.NetworkPolicies.{NetworkPolicy}
use managed_cluster_validati.Webhooks.Node
use managed_cluster_validati.Webhooks.Node.{Node}
use managed_cluster_validati.Webhooks.Pod
use managed_cluster_validati.Webhooks.Pod.{Pod}
use managed_cluster_validati.Webhooks.PodImageSpec
use managed_cluster_validati.Webhooks.PodImageSpec.{Platform}
use managed_cluster_validati.Webhooks.PrometheusRule
use managed_cluster_validati.Webhooks.PrometheusRule.{PrometheusRule}
use managed_cluster_validati.Webhooks.RegularUser
use managed_cluster_validati.Webhooks.RegularUser.{NetNamespace, ConfigMap}
use managed_cluster_validati.Webhooks.Scc
use managed_cluster_validati.Webhooks.Scc.{Scc}
use managed_cluster_validati.Webhooks.SdnMigration
use managed_cluster_validati.Webhooks.SdnMigration.{Network}
use managed_cluster_validati.Webhooks.Service
use managed_cluster_validati.Webhooks.Service.{Service}
use managed_cluster_validati.Webhooks.ServiceAccount
use managed_cluster_validati.Webhooks.ServiceAccount.{ServiceAccount}
use managed_cluster_validati.Webhooks.TechPreviewNoUpgrade
use managed_cluster_validati.Webhooks.TechPreviewNoUpgrade.{FeatureGate}

pub record Decoders (A B F V : Type 0) : Type 0 where
  pub cluster_logging : Decoder ClusterLogging
  pub cluster_role : Decoder ClusterRole
  pub cluster_role_binding : Decoder ClusterRoleBinding
  pub custom_resource_definition : Decoder CustomResourceDefinition
  pub image_content_policies : ImageContentPolicies.Decoders
  pub ingress_controller : Decoder IngressController
  pub namespace : Decoder Namespace
  pub network_operator : Decoder (NetworkOperator.Network F V)
  pub same_features : F → F → Bool
  pub same_values : V → V → Bool
  pub network_policy : Decoder NetworkPolicy
  pub node : Decoder Node
  pub pod : Decoder Pod
  pub platform : Platform A B
  pub prometheus_rule : Decoder PrometheusRule
  pub net_namespace : Decoder NetNamespace
  pub config_map : Decoder ConfigMap
  pub scc : Decoder Scc
  pub sdn_migration : Decoder Network
  pub service : Decoder Service
  pub service_account : Decoder ServiceAccount
  pub tech_preview_no_upgrade : Decoder FeatureGate

-- `Webhooks[name] = input`
unfoldable pub register : String → Webhook → Hooks → Hooks
register name hook hooks = insert name hook hooks

-- The table after the `init` functions have run.
unfoldable pub registered : {A B F V : Type 0} → Decoders A B F V → Hooks
unfolding register
registered decoders =
    register "techpreviewnoupgrade-validation"
      (TechPreviewNoUpgrade.hook decoders.tech_preview_no_upgrade)
      (register "serviceaccount-validation" (ServiceAccount.hook decoders.service_account) (
        register "service-mutation" (Service.hook decoders.service) (
          register "sdn-migration-validation" (SdnMigration.hook decoders.sdn_migration) (
            register "scc-validation" (Scc.hook decoders.scc) (
              register "regular-user-validation"
                (RegularUser.hook decoders.net_namespace decoders.config_map)
                (register "prometheusrule-validation" (PrometheusRule.hook decoders.prometheus_rule)
                  (register "podimagespec-mutation" (PodImageSpec.hook decoders.platform) (
                    register "pod-validation" (Pod.hook decoders.pod) (
                      register "node-validation-osd" (Node.hook decoders.node) (
                        register "networkpolicies-validation"
                          (NetworkPolicies.hook decoders.network_policy)
                          (register "network-operator-validation"
                            (NetworkOperator.hook decoders.same_features decoders.same_values
                              decoders.network_operator)
                            (register "namespace-validation" (Namespace.hook decoders.namespace) (
                              register "manifestworks-validation" ManifestWorks.hook (
                                register "ingresscontroller-validation"
                                  (IngressController.hook decoders.ingress_controller)
                                  (register "ingress-config-validation" IngressConfig.hook (
                                    register "imagecontentpolicies-validation"
                                      (ImageContentPolicies.hook decoders.image_content_policies)
                                      (register "hostedcontrolplane-validation"
                                        HostedControlPlane.hook
                                        (register "hostedcluster-validation" HostedCluster.hook (
                                          register "hiveownership-validation" HiveOwnership.hook (
                                            register "hcpnamespace-validation" HcpNamespace.hook (
                                              register "customresourcedefinitions-validation"
                                                (CustomResourceDefinitions.hook
                                                  decoders.custom_resource_definition)
                                                (register "clusterrolebindings-validation"
                                                  (ClusterRoleBinding.hook
                                                    decoders.cluster_role_binding)
                                                  (register "clusterroles-validation"
                                                    (ClusterRole.hook decoders.cluster_role)
                                                    (register "clusterlogging-validation"
                                                      (ClusterLogging.hook decoders.cluster_logging)
                                                      []))))))))))))))))))))))))
