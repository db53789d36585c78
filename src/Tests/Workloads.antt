-- ===== src/Tests/Workloads.antt =====
-- The theorems on the stateful set and its pods at concrete inputs.
use multi_raft_storage.Prelude.{
  ℕ, ◌≡◌, refl, ◌<◌, [], ◌∷◌, none, some, arith, Result, ok, String, str_eq_iff, nat_Eq,
}
use multi_raft_storage.Prelude.Assoc.{lookup}
use multi_raft_storage.Prelude.Int.{pos, pos_part}
use multi_raft_storage.Prelude.Text.{◌⊕◌, show_int}
use multi_raft_storage.Node.Config.{Config}
use multi_raft_storage.Node.Main.{Node, main}
use multi_raft_storage.Controller.Cluster.Resources.{new_node_config}
use multi_raft_storage.Controller.Cluster.Workloads.Nodes.{IsMounted, node_listens}
use multi_raft_storage.Node.Group.{targets}
use multi_raft_storage.Controller.Api.{MultiRaftCluster, voting_member}
use multi_raft_storage.Controller.Labels.{new_cluster_annotations}
use multi_raft_storage.Controller.Placement.{pod_ordinal}
use multi_raft_storage.Controller.Kube.{config_map}
use multi_raft_storage.Controller.Cluster.{bootstrap_request}
use multi_raft_storage.Controller.Cluster.Workloads.{
  config_volume, data_volume_name, config_path, data_path, node_container, node_flags, stateful_set,
  pod_requests, raft_host, protocol_port,
}
use multi_raft_storage.Controller.Cluster.Workloads.Mounts.{
  sources, data_source, volume, mounts_found,
}
use multi_raft_storage.Controller.Cluster.Workloads.Hosts.{targets_served}
use multi_raft_storage.Controller.Cluster.Workloads.Requests.{pod_requests_lost}
use multi_raft_storage.Tests.Fixtures.{named, cluster, store, sized}

abbrev claiming : MultiRaftCluster
claiming = record (cluster none) {
  spec = record (cluster none).spec {
    volume_claim_template = some (record { name = "logs"; rest = "1Gi" });
  };
}

mounts_found_example :
    ((node_container "" "cluster.local" claiming).volume_mounts
      ≡ record {
        name = data_volume_name claiming.spec.volume_claim_template;
        mount_path = data_path;
      }
        ∷ record { name = config_volume; mount_path = config_path }
        ∷ [])
    × (sources
          (stateful_set "" "cluster.local" claiming)
          (data_volume_name claiming.spec.volume_claim_template)
        ≡ data_source claiming.spec.volume_claim_template ∷ [])
    × (sources (stateful_set "" "cluster.local" claiming) config_volume
        ≡ volume (config_map "raft") ∷ [])
unfolding data_volume_name
mounts_found_example =
    mounts_found "" "cluster.local" claiming
      (λ h. (let k = (str_eq_iff "logs" "config").1 h in absurd (ground arith)))

targets_served_example :
    (o : ℕ) × (pod_ordinal (cluster none) (pos 2) (pos 3) ≡ pos o)
    × (o < pos_part (stateful_set "" "cluster.local" (cluster none)).replicas)
    × (lookup 3 (
          targets
            (bootstrap_request "cluster.local"
              (cluster none)
              (pos 2)
              (pos 1)
              voting_member).members)
        ≡ some (
            raft_host "cluster.local" (cluster none) (show_int (pos o))
            ⊕ ":"
            ⊕ show_int protocol_port))
targets_served_example =
    targets_served "" "cluster.local" (cluster none) 3 3 2 2 sized (pos 1) voting_member
      (omega arith) (omega arith) (omega arith)

abbrev created_cluster : MultiRaftCluster
created_cluster = record (cluster none) {
  meta = record (named "raft") { annotations = new_cluster_annotations store };
}

pod_requests_lost_example : pod_requests created_cluster.meta ≡ []
unfolding lookup stateful_set
pod_requests_lost_example =
    pod_requests_lost "" "cluster.local" store created_cluster created_cluster.meta (refl, tt) refl
      refl refl

-- A file system and a codec of one text.
abbrev read_file : String → Result String String
read_file path = ok "raft: {}"

abbrev marshal : Config → String
marshal config = "raft: {}"

abbrev unmarshal : String → Result String Config
unmarshal text = ok (new_node_config (cluster none))

mounted : IsMounted marshal unmarshal read_file (cluster none)
mounted = record { decodes = refl; mounted = refl }

node_listens_example :
    (o : ℕ) × (pod_ordinal (cluster none) (pos 2) (pos 3) ≡ pos o)
    × (o < pos_part (stateful_set "" "cluster.local" (cluster none)).replicas)
    × (node : Node) × (main read_file unmarshal
          (node_flags "cluster.local" (cluster none) (show_int (pos o)))
        ≡ ok node)
    × (node.raft ≡ (new_node_config (cluster none)).raft)
    × (lookup 3 (
          targets
            (bootstrap_request "cluster.local"
              (cluster none)
              (pos 2)
              (pos 1)
              voting_member).members)
        ≡ some node.host_config.raft_address)
node_listens_example =
    node_listens marshal unmarshal read_file "" "cluster.local" (cluster none) mounted 3 3 2 2
      (pos 1) voting_member sized (omega arith) (omega arith) (omega arith)
