-- ===== src/Webhooks/RegularUser/Access.antt =====
-- Whom pkg/webhooks/regularuser/common/regularuser.go lets through to what.
use managed_cluster_validati.Webhooks.Namespace.Access.{IsBadName, bad_namespace_iff}
use managed_cluster_validati.Webhooks.RegularUser.{
  admin_groups, admin_users, cluster_version_users, machine_config_users, cee_group, NetNamespace,
  ConfigMap, has_admin_group, is_must_gather_authorized, is_custom_domain_authorized,
  is_cluster_version_authorized, is_machine_config_authorized, is_good_name, is_net_namespace_valid,
  is_net_namespace_authorized, render_config_map, is_other_config_map,
  should_allow_config_map_change, authorize_rest, authorize_kind, authorized,
}
use managed_cluster_validati.Base.{
  String, ◌≡◌, ◌≢◌, ◌↔◌, ◌⊎◌, true, false, arith, Any, any_iff, contains, contains_iff, Member,
  eq_iff,
}
use managed_cluster_validati.Base.Text.{has_prefix}
use managed_cluster_validati.Admission.{Request, Response, is_allowed, Result, ok, fail, Decoder}
use managed_cluster_validati.Utils.{request_matches_group_kind, webhook_response}
use managed_cluster_validati.Config.Namespaces.{IsPrivilegedNamespace, is_privileged_namespace_iff}

-- The user is one of Red Hat's SREs.
abbrev pub IsSre : Request → Type 0
IsSre request =
    Member request.username admin_users ⊎ Any (λ group. Member group admin_groups) request.groups

abbrev pub IsCustomerAdmin : Request → Type 0
IsCustomerAdmin request =
    Member "cluster-admins" request.groups ⊎ Member "dedicated-admins" request.groups

abbrev pub IsMachineConfigUser : Request → Type 0
IsMachineConfigUser request =
    Member "cluster-admins" request.groups
    ⊎ Member request.username admin_users
    ⊎ Member request.username machine_config_users

abbrev pub IsClusterVersionUser : Request → Type 0
IsClusterVersionUser request =
    Member request.username cluster_version_users
    ⊎ IsSre request
    ⊎ ((has_prefix request.username "system:" ≡ true)
        × (has_prefix request.username "system:serviceaccount:" ≡ false))

-- The kind and group of a request.
abbrev pub IsOn : String → String → Request → Type 0
IsOn kind group request = (request.kind ≡ kind) × (request.group ≡ group)

-- The object decodes to a NetNamespace that is neither privileged nor badly named.
abbrev pub HasGoodName : Result NetNamespace → Type 0
HasGoodName (fail err) = ⊥
HasGoodName (ok net_namespace) =
    ¬ IsBadName net_namespace.name × ¬ IsPrivilegedNamespace net_namespace.name

-- The object decodes to a ConfigMap other than openshift-config/user-ca-bundle.
abbrev pub IsOtherConfigMap : Result ConfigMap → Type 0
IsOtherConfigMap (fail err) = ⊥
IsOtherConfigMap (ok config_map) =
    ¬ ((config_map.name ≡ "user-ca-bundle") × (config_map.namespace ≡ "openshift-config"))

has_admin_group_iff :
    (request : Request)
    → (has_admin_group request ≡ true) ↔ Any (λ group. Member group admin_groups) request.groups
has_admin_group_iff request =
    any_iff (λ group. contains admin_groups group) (contains_iff admin_groups) request.groups

machine_config_iff :
    (request : Request)
    → (is_machine_config_authorized request ≡ true) ↔ IsMachineConfigUser request
unfolding is_machine_config_authorized
machine_config_iff request = ground (
  arith,
  contains_iff request.groups "cluster-admins",
  contains_iff admin_users request.username,
  contains_iff machine_config_users request.username,
)

cluster_version_iff :
    (request : Request)
    → (is_cluster_version_authorized request ≡ true) ↔ IsClusterVersionUser request
unfolding is_cluster_version_authorized
cluster_version_iff request = ground (
  arith,
  contains_iff cluster_version_users request.username,
  contains_iff admin_users request.username,
  has_admin_group_iff request,
)

is_good_name_iff :
    (parsed : Result NetNamespace) → (is_good_name parsed ≡ true) ↔ HasGoodName parsed
unfolding is_good_name
is_good_name_iff (fail err) = ground arith
is_good_name_iff (ok net_namespace) =
    ground
      (arith, bad_namespace_iff net_namespace.name, is_privileged_namespace_iff net_namespace.name)

net_namespace_iff :
    (decoder : Decoder NetNamespace) (request : Request)
    → (is_net_namespace_authorized decoder request ≡ true) ↔ (
        IsCustomerAdmin request
        × (request.object ≢ "")
        × HasGoodName (decoder.decode_raw request.object))
unfolding is_net_namespace_authorized is_net_namespace_valid
net_namespace_iff decoder request = ground (
  arith,
  contains_iff request.groups "cluster-admins",
  contains_iff request.groups "dedicated-admins",
  eq_iff request.object "",
  is_good_name_iff (decoder.decode_raw request.object),
)

is_other_config_map_iff :
    (parsed : Result ConfigMap) → (is_other_config_map parsed ≡ true) ↔ IsOtherConfigMap parsed
unfolding is_other_config_map
is_other_config_map_iff (fail err) = ground arith
is_other_config_map_iff (ok config_map) =
    ground (
      arith,
      eq_iff config_map.name "user-ca-bundle",
      eq_iff config_map.namespace "openshift-config",
    )

request_matches_iff :
    (request : Request) (kind group : String)
    → (request_matches_group_kind request kind group ≡ true) ↔ IsOn kind group request
unfolding request_matches_group_kind
request_matches_iff request kind group =
    ground (arith, eq_iff request.kind kind, eq_iff request.group group)

-- The users that the code after the switch lets through.
abbrev pub MayPass : Decoder ConfigMap → Request → Type 0
MayPass decoder request =
    (has_prefix request.username "system:" ≡ true)
    ⊎ IsSre request
    ⊎ ((request.kind ≡ "ConfigMap") × IsOtherConfigMap (render_config_map decoder request))

authorize_rest_iff :
    (decoder : Decoder ConfigMap) (request : Request)
    → (is_allowed (authorize_rest decoder request).verdict ≡ true) ↔ MayPass decoder request
unfolding authorize_rest should_allow_config_map_change
authorize_rest_iff decoder request = ground (
  arith,
  contains_iff admin_users request.username,
  has_admin_group_iff request,
  eq_iff request.kind "ConfigMap",
  is_other_config_map_iff (render_config_map decoder request),
)

-- The kinds whose users the switch lets through before the general rules apply.
abbrev pub MayManage : Decoder NetNamespace → Request → Type 0
MayManage decoder request =
    (IsOn "MustGather" "managed.openshift.io" request × Member cee_group request.groups)
    ⊎ (IsOn "CustomDomain" "managed.openshift.io" request × IsCustomerAdmin request)
    ⊎ (IsOn "NetNamespace" "network.openshift.io" request
        × IsCustomerAdmin request
        × (request.object ≢ "")
        × HasGoodName (decoder.decode_raw request.object))

switch_iff :
    (decoder : Decoder NetNamespace) (request : Request) (rest : Response)
    → (is_allowed (authorize_kind decoder request rest).verdict ≡ true) ↔ (
        (IsOn "ClusterVersion" "config.openshift.io" request × IsClusterVersionUser request)
        ⊎ (¬ IsOn "ClusterVersion" "config.openshift.io" request
            × (MayManage decoder request ⊎ (is_allowed rest.verdict ≡ true))))
unfolding authorize_kind is_must_gather_authorized is_custom_domain_authorized webhook_response
switch_iff decoder request rest = ground (
  arith,
  eq_iff "MustGather" "CustomDomain",
  eq_iff "MustGather" "ClusterVersion",
  eq_iff "MustGather" "NetNamespace",
  eq_iff "CustomDomain" "ClusterVersion",
  eq_iff "CustomDomain" "NetNamespace",
  eq_iff "ClusterVersion" "NetNamespace",
  request_matches_iff request "MustGather" "managed.openshift.io",
  request_matches_iff request "CustomDomain" "managed.openshift.io",
  request_matches_iff request "ClusterVersion" "config.openshift.io",
  request_matches_iff request "NetNamespace" "network.openshift.io",
  contains_iff request.groups cee_group,
  contains_iff request.groups "cluster-admins",
  contains_iff request.groups "dedicated-admins",
  cluster_version_iff request,
  net_namespace_iff decoder request,
)

-- A request is allowed exactly when its user is authenticated and one of these holds. The request is
-- for the machineconfiguration group and the user is in cluster-admins or one of the listed users. It
-- is not for that group and the user's name begins with `kube:`. It is for neither, it is for a
-- ClusterVersion, and the user may change ClusterVersions. Or it is for none of these, and the switch
-- lets the user manage the kind, or the name begins with `system:`, or the user is an SRE, or it is
-- for a ConfigMap that decodes and is not openshift-config/user-ca-bundle.
pub regular_user_authorized_iff :
    (net_namespaces : Decoder NetNamespace) (config_maps : Decoder ConfigMap) (request : Request)
    → (is_allowed (authorized net_namespaces config_maps request).verdict ≡ true) ↔ (
        (request.username ≢ "system:unauthenticated")
        × (((request.group ≡ "machineconfiguration.openshift.io") × IsMachineConfigUser request)
            ⊎ ((request.group ≢ "machineconfiguration.openshift.io")
                × ((has_prefix request.username "kube:" ≡ true)
                    ⊎ (IsOn "ClusterVersion" "config.openshift.io" request
                        × IsClusterVersionUser request)
                    ⊎ (¬ IsOn "ClusterVersion" "config.openshift.io" request
                        × (MayManage net_namespaces request ⊎ MayPass config_maps request))))))
unfolding authorized webhook_response
regular_user_authorized_iff net_namespaces config_maps request = ground (
  arith,
  eq_iff request.username "system:unauthenticated",
  eq_iff request.group "machineconfiguration.openshift.io",
  machine_config_iff request,
  switch_iff net_namespaces request (authorize_rest config_maps request),
  authorize_rest_iff config_maps request,
)
