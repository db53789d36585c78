-- ===== src/Controller/Cluster/Resources.antt =====
-- controller/pkg/controller/consensus/v1beta1/cluster.go: the config map, the stateful set and the
-- services of a cluster, each created when it is not there, and the node's configuration in the map.
use multi_raft_storage.Prelude.{
  ℕ, String, [], ◌∷◌, Option, none, some, ok, err, Exec, pure, fail, attempt, ◌>>=◌,
}
use multi_raft_storage.Prelude.Int.{ℤ, uint64}
use multi_raft_storage.Node.Config
use multi_raft_storage.Controller.Api.{MultiRaftCluster}
use multi_raft_storage.Controller.Placement.{get_headless_service_name}
use multi_raft_storage.Controller.Kube.{Service}
use multi_raft_storage.Controller.Cluster.Workloads.{
  raft_config_file, logging_config_file, resource_meta, stateful_set, service, headless_service,
}
use multi_raft_storage.Controller.Client.{KubeError, not_found, Client}

abbrev pub entries : Option ℤ → Option ℕ
entries none = none
entries (some n) = some (uint64 n)

unfoldable pub new_node_config : MultiRaftCluster → Config.Config
new_node_config c = record {
  server = record {
    read_buffer_size = c.spec.config.server.read_buffer_size;
    write_buffer_size = c.spec.config.server.write_buffer_size;
    max_recv_msg_size = c.spec.config.server.max_recv_msg_size;
    max_send_msg_size = c.spec.config.server.max_send_msg_size;
    num_stream_workers = c.spec.config.server.num_stream_workers;
    max_concurrent_streams = c.spec.config.server.max_concurrent_streams;
  };
  raft = record {
    heartbeat_period = c.spec.config.raft.heartbeat_period;
    election_timeout = c.spec.config.raft.election_timeout;
    snapshot_entry_threshold = entries c.spec.config.raft.snapshot_entry_threshold;
    compaction_retain_entries = entries c.spec.config.raft.compaction_retain_entries;
    data_dir = none;
  };
}

-- `env` is the value of `DEFAULT_NODE_IMAGE`, `domain` the result of `getClusterDomain()`.
module _ {S : Type 0} (client : Client S) (env domain : String) (c : MultiRaftCluster) where
  unfoldable pub add_config_map : Exec S KubeError (Unit {0})
  unfolding new_node_config
  add_config_map = do
    logging ← client.marshal_logging c.spec.config.logging
    config ← client.marshal_yaml (new_node_config c)
    meta ← client.set_controller c.meta (resource_meta c c.meta.name)
    client.create_config_map meta ((raft_config_file, config) ∷ (logging_config_file, logging) ∷ [])

  unfoldable pub add_stateful_set : Exec S KubeError (Unit {0})
  unfolding stateful_set
  add_stateful_set = do
    let set = stateful_set env domain c
    meta ← client.set_controller c.meta set.meta
    client.create_stateful_set (record set { meta = meta })

  -- `addService` and `addHeadlessService`, by the service.
  unfoldable pub add_service : Service → Exec S KubeError (Unit {0})
  add_service service = do
    meta ← client.set_controller c.meta service.meta
    client.create_service (record service { meta = meta })

  -- `Get`, and where nothing is found the given `add`.
  unfoldable pub ensure :
      String → String → Exec S KubeError (Unit {0}) → Exec S KubeError (Unit {0})
  ensure kind name add = do
    found ← attempt (client.get_resource kind c.meta.namespace name)
    elim found [ err not_found ↦ add | err e ↦ fail e | ok _ ↦ pure tt ]

  unfoldable pub reconcile_config_map : Exec S KubeError (Unit {0})
  unfolding ensure add_config_map
  reconcile_config_map = ensure "ConfigMap" c.meta.name add_config_map

  unfoldable pub reconcile_stateful_set : Exec S KubeError (Unit {0})
  unfolding ensure add_stateful_set
  reconcile_stateful_set = ensure "StatefulSet" c.meta.name add_stateful_set

  unfoldable pub reconcile_service : Exec S KubeError (Unit {0})
  unfolding ensure add_service service
  reconcile_service = ensure "Service" c.meta.name (add_service (service c))

  unfoldable pub reconcile_headless_service : Exec S KubeError (Unit {0})
  unfolding ensure add_service headless_service get_headless_service_name
  reconcile_headless_service =
      ensure "Service" (get_headless_service_name c.meta.name) (add_service (headless_service c))
