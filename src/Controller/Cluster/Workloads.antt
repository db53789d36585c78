-- ===== src/Controller/Cluster/Workloads.antt =====
-- controller/pkg/controller/consensus/v1beta1/cluster.go: the stateful set and the two services that
-- a cluster's nodes run in, as the controller creates them.
pub mod Mounts
pub mod Hosts
pub mod Nodes
pub mod Requests
use multi_raft_storage.Prelude.{
  String, true, false, List, [], ◌∷◌, ◌++◌, Option, none, some, str_eq, string_Eq, if◌then◌else◌,
}
use multi_raft_storage.Prelude.Assoc.{lookup}
use multi_raft_storage.Prelude.Int.{ℤ, pos, int32}
use multi_raft_storage.Prelude.Text.{◌⊕◌, show_int}
use multi_raft_storage.Node.Main.{Flags}
use multi_raft_storage.Controller.Api.{ObjectMeta, PersistentVolumeClaim, MultiRaftCluster}
use multi_raft_storage.Controller.Placement.{get_num_replicas, get_headless_service_name, get_image}
use multi_raft_storage.Controller.Labels.{multi_raft_cluster_key}
use multi_raft_storage.Controller.Kube.{
  VolumeSource, config_map, empty_dir, Volume, VolumeMount, Port, Probe, Container, PodAffinityTerm,
  PodTemplate, StatefulSet, Service,
}

abbrev pub api_port : ℤ
api_port = pos 5678

abbrev pub protocol_port : ℤ
protocol_port = pos 5679

abbrev pub probe_port : ℤ
probe_port = pos 5679

abbrev pub config_path : String
config_path = "/etc/atomix"

abbrev pub raft_config_file : String
raft_config_file = "raft.yaml"

abbrev pub logging_config_file : String
logging_config_file = "logging.yaml"

abbrev pub data_path : String
data_path = "/var/lib/atomix"

abbrev pub config_volume : String
config_volume = "config"

abbrev pub data_volume : String
data_volume = "data"

-- The claim with the name that the source gives to a claim without one. The source writes that name
-- into the cluster that it has read, which no later write of the pass sends.
unfoldable pub named_claim : PersistentVolumeClaim → PersistentVolumeClaim
named_claim claim = if str_eq claim.name "" then record claim { name = data_volume } else claim

unfoldable pub data_volume_name : Option PersistentVolumeClaim → String
data_volume_name none = data_volume
data_volume_name (some claim) = if str_eq claim.name "" then data_volume else claim.name

unfoldable pub data_volumes : Option PersistentVolumeClaim → List Volume
data_volumes none = record { name = data_volume; source = empty_dir } ∷ []
data_volumes (some claim) = []

unfoldable pub claim_templates : Option PersistentVolumeClaim → List PersistentVolumeClaim
unfolding named_claim
claim_templates none = []
claim_templates (some claim) = named_claim claim ∷ []

abbrev pub probe : ℤ → Option ℤ → Probe
probe delay threshold = record {
  port = probe_port;
  initial_delay_seconds = delay;
  timeout_seconds = pos 10;
  failure_threshold = threshold;
}

abbrev pub ports : List Port
ports =
    record { name = "api"; number = api_port }
    ∷ record { name = "protocol"; number = protocol_port }
    ∷ []

-- The metadata of a resource of the cluster, by its name.
abbrev pub resource_meta : MultiRaftCluster → String → ObjectMeta
resource_meta c name = record {
  namespace = c.meta.namespace;
  name = name;
  labels = c.meta.labels;
  annotations = c.meta.annotations;
}

-- The argument of `--raft-host`, for what the shell puts in the place of `$ordinal`.
unfoldable pub raft_host : String → MultiRaftCluster → String → String
unfolding get_headless_service_name
raft_host domain c ordinal =
    c.meta.name
    ⊕ "-"
    ⊕ ordinal
    ⊕ "."
    ⊕ get_headless_service_name c.meta.name
    ⊕ "."
    ⊕ c.meta.namespace
    ⊕ ".svc."
    ⊕ domain

-- The script that the container runs.
unfoldable pub node_script : String → MultiRaftCluster → String
unfolding raft_host
node_script domain c =
    "set -ex\n[[ `hostname` =~ -([0-9]+)$ ]] || exit 1\nordinal=${BASH_REMATCH[1]}\natomix-consensus-node --config "
    ⊕ config_path
    ⊕ "/"
    ⊕ raft_config_file
    ⊕ " --api-port "
    ⊕ show_int api_port
    ⊕ " --raft-host "
    ⊕ raft_host domain c "$ordinal"
    ⊕ " --raft-port "
    ⊕ show_int protocol_port

-- The flags that the script passes; the rest have their defaults.
unfoldable pub node_flags : String → MultiRaftCluster → String → Flags
unfolding raft_host
node_flags domain c ordinal = record {
  config = config_path ⊕ "/" ⊕ raft_config_file;
  api_host = "";
  api_port = api_port;
  raft_host = raft_host domain c ordinal;
  raft_port = protocol_port;
}

-- `env` is the value of `DEFAULT_NODE_IMAGE`, `domain` the result of `getClusterDomain()`.
module _ (env domain : String) (c : MultiRaftCluster) where
  unfoldable pub node_container : Container
  unfolding data_volume_name node_script get_image
  node_container = record {
    name = "atomix-consensus-node";
    image = get_image env c;
    image_pull_policy = c.spec.image_pull_policy;
    ports = ports;
    command = "bash" ∷ "-c" ∷ node_script domain c ∷ [];
    readiness_probe = probe (pos 5) (some (pos 12));
    liveness_probe = probe (pos 60) none;
    security_context = c.spec.security_context;
    volume_mounts =
        record { name = data_volume_name c.spec.volume_claim_template; mount_path = data_path }
        ∷ record { name = config_volume; mount_path = config_path }
        ∷ [];
  }

  unfoldable pub pod_template : PodTemplate
  unfolding data_volumes node_container
  pod_template = record {
    labels = c.meta.labels;
    annotations = c.meta.annotations;
    containers = node_container ∷ [];
    anti_affinity =
        record {
          weight = pos 1;
          match_labels = c.meta.labels;
          namespaces = c.meta.namespace ∷ [];
          topology_key = "kubernetes.io/hostname";
        }
        ∷ [];
    image_pull_secrets = c.spec.image_pull_secrets;
    volumes =
        record { name = config_volume; source = config_map c.meta.name }
        ∷ data_volumes c.spec.volume_claim_template;
  }

  unfoldable pub stateful_set : StatefulSet
  unfolding claim_templates pod_template get_num_replicas get_headless_service_name
  stateful_set = record {
    meta = resource_meta c c.meta.name;
    service_name = get_headless_service_name c.meta.name;
    replicas = int32 (get_num_replicas c);
    match_labels = c.meta.labels;
    update_strategy = "RollingUpdate";
    pod_management_policy = "Parallel";
    template = pod_template;
    volume_claim_templates = claim_templates c.spec.volume_claim_template;
  }

unfoldable pub service : MultiRaftCluster → Service
service c = record {
  meta = resource_meta c c.meta.name;
  ports = ports;
  publish_not_ready_addresses = false;
  cluster_ip = none;
  selector = c.meta.labels;
}

unfoldable pub headless_service : MultiRaftCluster → Service
unfolding get_headless_service_name
headless_service c = record {
  meta = resource_meta c (get_headless_service_name c.meta.name);
  ports = ports;
  publish_not_ready_addresses = true;
  cluster_ip = some "None";
  selector = c.meta.labels;
}

abbrev pub requests_for : String → Option String → List (String × String)
requests_for namespace none = []
requests_for namespace (some name) = (namespace, name) ∷ []

-- The clusters, by namespace and name, that an event of a pod with this metadata puts in the queue.
unfoldable pub pod_requests : ObjectMeta → List (String × String)
pod_requests meta = requests_for meta.namespace (lookup multi_raft_cluster_key meta.annotations)
