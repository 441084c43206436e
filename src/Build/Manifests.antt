-- ===== src/Build/Manifests.antt =====
-- build/resources.go: the manifests that the build makes beside the webhook configurations. The port
-- is one that fits an int32.
pub mod Consistency
use managed_cluster_validati.Base.{ℕ, String, Bool, true, List, [], ◌∷◌, Option, none, some}
use managed_cluster_validati.Base.Text.{concat}
use managed_cluster_validati.Registry.{insert}
use managed_cluster_validati.Build.{service_name}

-- The flags that the manifests read.
pub record ManifestFlags : Type 0 where
  pub namespace : String
  pub listen_port : ℕ
  pub secret_name : String
  pub ca_bundle_name : String
  pub replicas : ℕ

abbrev pub Labels : Type 0
Labels = List (String × String)

pub record ObjectMeta : Type 0 where
  pub name : String
  pub namespace : String
  pub labels : Labels
  pub annotations : Labels

-- A Namespace, a ServiceAccount or a ConfigMap without data.
pub record Plain : Type 0 where
  pub kind : String
  pub meta : ObjectMeta

pub record PolicyRule : Type 0 where
  pub api_groups : List String
  pub resources : List String
  pub verbs : List String

-- A Role or a ClusterRole, and a binding of one.
pub record Role : Type 0 where
  pub kind : String
  pub meta : ObjectMeta
  pub rules : List PolicyRule

pub record Subject : Type 0 where
  pub kind : String
  pub name : String
  pub namespace : String

pub record Binding : Type 0 where
  pub kind : String
  pub meta : ObjectMeta
  pub subjects : List Subject
  pub role_name : String
  pub role_kind : String
  pub role_api_group : String

pub record ServiceMonitor : Type 0 where
  pub meta : ObjectMeta
  pub endpoint_ports : List String
  pub match_names : List String
  pub match_labels : Labels

pub record ServicePort : Type 0 where
  pub name : String
  pub port : ℕ
  pub target_port : ℕ
  pub protocol : String

pub record Service : Type 0 where
  pub meta : ObjectMeta
  pub service_type : String
  pub selector : Labels
  pub ports : List ServicePort

abbrev plain_meta : String → String → ObjectMeta
plain_meta name namespace = record {
  name = name;
  namespace = namespace;
  labels = [];
  annotations = [];
}

abbrev service_account_name : String
service_account_name = "validation-webhook"

abbrev role_name : String
role_name = "validation-webhook"

abbrev prometheus_role_name : String
prometheus_role_name = "prometheus-k8s"

abbrev rbac_group : String
rbac_group = "rbac.authorization.k8s.io"

abbrev pub create_namespace : ManifestFlags → Plain
create_namespace flags = record {
  kind = "Namespace";
  meta = record {
    name = flags.namespace;
    namespace = "";
    labels = ("openshift.io/cluster-monitoring", "true") ∷ [];
    annotations = [];
  };
}

abbrev pub create_service_account : ManifestFlags → Plain
create_service_account flags = record {
  kind = "ServiceAccount";
  meta = plain_meta service_account_name flags.namespace;
}

abbrev pub create_role : ManifestFlags → Role
create_role flags = record {
  kind = "Role";
  meta = plain_meta role_name flags.namespace;
  rules =
      record { api_groups = "" ∷ []; resources = "services" ∷ []; verbs = "*" ∷ [] }
      ∷ record {
        api_groups = "monitoring.coreos.com" ∷ [];
        resources = "servicemonitors" ∷ [];
        verbs = "*" ∷ [];
      }
      ∷ [];
}

abbrev binding_name : String
binding_name = concat (role_name ∷ ":" ∷ service_account_name ∷ [])

abbrev own_subject : ManifestFlags → Subject
own_subject flags = record {
  kind = "ServiceAccount";
  name = service_account_name;
  namespace = flags.namespace;
}

abbrev pub create_role_binding : ManifestFlags → Binding
create_role_binding flags = record {
  kind = "RoleBinding";
  meta = plain_meta binding_name flags.namespace;
  subjects = own_subject flags ∷ [];
  role_name = role_name;
  role_kind = "Role";
  role_api_group = rbac_group;
}

abbrev pub create_cluster_role : Role
create_cluster_role = record {
  kind = "ClusterRole";
  meta = plain_meta role_name "";
  rules =
      record {
        api_groups = "imageregistry.operator.openshift.io" ∷ [];
        resources = "configs" ∷ [];
        verbs = "get" ∷ [];
      }
      ∷ [];
}

abbrev pub create_cluster_role_binding : ManifestFlags → Binding
create_cluster_role_binding flags = record {
  kind = "ClusterRoleBinding";
  meta = plain_meta binding_name "";
  subjects = own_subject flags ∷ [];
  role_name = role_name;
  role_kind = "ClusterRole";
  role_api_group = rbac_group;
}

abbrev pub create_prometheus_role : ManifestFlags → Role
create_prometheus_role flags = record {
  kind = "Role";
  meta = plain_meta prometheus_role_name flags.namespace;
  rules =
      record {
        api_groups = "" ∷ [];
        resources = "services" ∷ "endpoints" ∷ "pods" ∷ [];
        verbs = "get" ∷ "list" ∷ "watch" ∷ [];
      }
      ∷ [];
}

abbrev pub create_promethus_role_binding : ManifestFlags → Binding
create_promethus_role_binding flags = record {
  kind = "RoleBinding";
  meta = plain_meta "prometheus-k8s" flags.namespace;
  subjects =
      record {
        kind = "ServiceAccount";
        name = "prometheus-k8s";
        namespace = "openshift-monitoring";
      }
      ∷ [];
  role_name = prometheus_role_name;
  role_kind = "Role";
  role_api_group = rbac_group;
}

abbrev pub create_service_monitor : ManifestFlags → ServiceMonitor
create_service_monitor flags = record {
  meta = plain_meta "validating-webhook-metrics" flags.namespace;
  endpoint_ports = "metrics" ∷ [];
  match_names = flags.namespace ∷ [];
  match_labels = ("app", service_name) ∷ [];
}

abbrev pub create_ca_cert_config_map : ManifestFlags → Plain
create_ca_cert_config_map flags = record {
  kind = "ConfigMap";
  meta = record {
    name = "webhook-cert";
    namespace = flags.namespace;
    labels = [];
    annotations = ("service.beta.openshift.io/inject-cabundle", "true") ∷ [];
  };
}

-- `Annotations[pkoPhaseAnnotation] = phase`, and an empty namespace.
abbrev pub packaged_meta : ObjectMeta → String → ObjectMeta
packaged_meta meta phase = record {
  name = meta.name;
  namespace = "";
  labels = meta.labels;
  annotations = insert "package-operator.run/phase" phase meta.annotations;
}

abbrev pub create_packaged_ca_cert_config_map : ManifestFlags → String → Plain
create_packaged_ca_cert_config_map flags phase =
    let cm = create_ca_cert_config_map flags in
    record { kind = cm.kind; meta = packaged_meta cm.meta phase }

abbrev pub create_service : ManifestFlags → Service
create_service flags = record {
  meta = record {
    name = service_name;
    namespace = flags.namespace;
    labels = ("name", service_name) ∷ ("hypershift.openshift.io/allow-guest-webhooks", "true") ∷ [];
    annotations = ("service.beta.openshift.io/serving-cert-secret-name", flags.secret_name) ∷ [];
  };
  service_type = "ClusterIP";
  selector = ("app", "validation-webhook") ∷ [];
  ports =
      record { name = "https"; port = 443; target_port = flags.listen_port; protocol = "TCP" } ∷ [];
}

abbrev pub create_packaged_service : ManifestFlags → String → Service
create_packaged_service flags phase =
    let service = create_service flags in
    record {
      meta = packaged_meta service.meta phase;
      service_type = service.service_type;
      selector = service.selector;
      ports = service.ports;
    }
