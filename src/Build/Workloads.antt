-- ===== src/Build/Workloads.antt =====
-- build/resources.go: the DaemonSet of the template and the Deployment of the package.
use managed_cluster_validati.Base.{ℕ, String, Bool, true, List, [], ◌∷◌, Option, none, some}
use managed_cluster_validati.Build.Manifests.{ManifestFlags, Labels, ObjectMeta}

pub data VolumeSource : Type 0 where
  secret config_map : String → VolumeSource

pub record VolumeMount : Type 0 where
  pub name : String
  pub mount_path : String
  pub read_only : Bool

pub record Container : Type 0 where
  pub image_pull_policy : String
  pub termination_message_policy : String
  pub name : String
  pub image : String
  pub volume_mounts : List VolumeMount
  pub ports : List ℕ
  pub command : List String
  pub env : Labels

pub record Toleration : Type 0 where
  pub key : String
  pub operator : String
  pub value : String
  pub effect : String

pub record Requirement : Type 0 where
  pub key : String
  pub operator : String
  pub values : List String

-- The affinities as lists, each preferred one with its weight, and those of pods with their topology
-- key.
pub record PodSpec : Type 0 where
  pub required_nodes : List Requirement
  pub preferred_nodes : List (ℕ × Requirement)
  pub preferred_pods : List (ℕ × Labels × String)
  pub avoided_pods : List (Labels × String)
  pub tolerations : List Toleration
  pub restart_policy : String
  pub service_account_name : String
  pub volumes : List (String × VolumeSource)
  pub containers : List Container

pub data Amount : Type 0 where
  number : ℕ → Amount
  share : String → Amount

pub record Workload : Type 0 where
  pub kind : String
  pub meta : ObjectMeta
  pub replicas : Option ℕ
  pub selector : Labels
  pub max_unavailable : Amount
  pub pod_labels : Labels
  pub spec : PodSpec

abbrev app_label : Labels
app_label = ("app", "validation-webhook") ∷ []

abbrev control_plane_label : String
control_plane_label = "hypershift.openshift.io/control-plane"

abbrev hs_control_plane_label : String
hs_control_plane_label = "hypershift.openshift.io/hosted-control-plane"

abbrev hs_cluster_label : String
hs_cluster_label = "hypershift.openshift.io/cluster"

abbrev package_namespace : String
package_namespace = "{{.package.metadata.namespace}}"

abbrev command : List String
command =
    "webhooks" ∷ "-tlskey" ∷ "/service-certs/tls.key" ∷ "-tlscert" ∷ "/service-certs/tls.crt"
    ∷ "-cacert" ∷ "/service-ca/service-ca.crt" ∷ "-tls" ∷ []

abbrev mount : String → String → VolumeMount
mount name mount_path = record { name = name; mount_path = mount_path; read_only = true }

abbrev tolerate : String → String → Toleration
tolerate key value = record { key = key; operator = "Equal"; value = value; effect = "NoSchedule" }

abbrev prefer_in : String → String → Requirement
prefer_in key value = record { key = key; operator = "In"; values = value ∷ [] }

abbrev pub create_packaged_deployment : ManifestFlags → String → Workload
create_packaged_deployment flags phase = record {
  kind = "Deployment";
  meta = record {
    name = "validation-webhook";
    namespace = "";
    labels = app_label;
    annotations = ("package-operator.run/phase", phase) ∷ [];
  };
  replicas = some flags.replicas;
  selector = app_label;
  max_unavailable = Amount.number 1;
  pod_labels = app_label;
  spec = record {
    required_nodes = [];
    preferred_nodes =
        (50, prefer_in hs_control_plane_label "true")
        ∷ (100, prefer_in hs_cluster_label package_namespace)
        ∷ [];
    preferred_pods =
        (100, (hs_control_plane_label, package_namespace) ∷ [], "kubernetes.io/hostname") ∷ [];
    avoided_pods = (app_label, "topology.kubernetes.io/zone") ∷ [];
    tolerations =
        tolerate control_plane_label "true"
        ∷ tolerate hs_control_plane_label "true"
        ∷ tolerate hs_cluster_label package_namespace
        ∷ [];
    restart_policy = "Always";
    service_account_name = "";
    volumes =
        ("service-certs", VolumeSource.secret flags.secret_name)
        ∷ ("service-ca", VolumeSource.config_map flags.ca_bundle_name)
        ∷ ("hosted-kubeconfig", VolumeSource.secret "service-network-admin-kubeconfig")
        ∷ [];
    containers =
        record {
          image_pull_policy = "IfNotPresent";
          termination_message_policy = "FallbackToLogsOnError";
          name = "webhooks";
          image = "REPLACED_BY_PIPELINE";
          volume_mounts =
              mount "service-certs" "/service-certs"
              ∷ mount "service-ca" "/service-ca"
              ∷ mount "hosted-kubeconfig" "/etc/hosted-kubernetes"
              ∷ [];
          ports = flags.listen_port ∷ [];
          command = command;
          env = ("KUBECONFIG", "/etc/hosted-kubernetes/kubeconfig") ∷ [];
        }
        ∷ [];
  };
}

abbrev master : String
master = "node-role.kubernetes.io/master"

abbrev pub create_daemon_set : ManifestFlags → Workload
create_daemon_set flags = record {
  kind = "DaemonSet";
  meta = record {
    name = "validation-webhook";
    namespace = flags.namespace;
    labels = app_label;
    annotations = [];
  };
  replicas = none;
  selector = app_label;
  max_unavailable = Amount.share "10%";
  pod_labels = app_label;
  spec = record {
    required_nodes = prefer_in master "" ∷ [];
    preferred_nodes = [];
    preferred_pods = [];
    avoided_pods = [];
    tolerations =
        record { key = master; operator = ""; value = ""; effect = "NoSchedule" }
        ∷ record { key = master; operator = ""; value = ""; effect = "NoExecute" }
        ∷ [];
    restart_policy = "Always";
    service_account_name = "validation-webhook";
    volumes =
        ("service-certs", VolumeSource.secret flags.secret_name)
        ∷ ("service-ca", VolumeSource.config_map flags.ca_bundle_name)
        ∷ [];
    containers =
        record {
          image_pull_policy = "IfNotPresent";
          termination_message_policy = "FallbackToLogsOnError";
          name = "webhooks";
          image = "${REGISTRY_IMG}@${IMAGE_DIGEST}";
          volume_mounts =
              mount "service-certs" "/service-certs" ∷ mount "service-ca" "/service-ca" ∷ [];
          ports = flags.listen_port ∷ [];
          command = command;
          env = [];
        }
        ∷ [];
  };
}
