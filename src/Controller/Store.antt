-- ===== src/Controller/Store.antt =====
-- controller/pkg/controller/consensus/v1beta1/store.go: the reconciler of a consensus store, which
-- creates the cluster and keeps the `DataStore` that clients read. A result `true` asks for another
-- pass.
pub mod Errors
use multi_raft_storage.Prelude.{
  none, String, Bool, true, false, not, ◌&&◌, List, [], ◌∷◌, Result, ok, err, Exec, pure, fail,
  attempt, ◌>>=◌, ◌>>◌, if◌then◌else◌,
}
use multi_raft_storage.Prelude.Int.{pos}
use multi_raft_storage.Controller.Api.{
  State, unset, not_ready, ready, is_not_ready, is_ready, MultiRaftCluster, ConsensusStore,
  RaftPartitionStatus,
}
use multi_raft_storage.Controller.Labels.{new_cluster_labels, new_cluster_annotations}
use multi_raft_storage.Controller.Statuses.{
  PartitionConfig, get_protocol_config, is_protocol_config_equal,
}
use multi_raft_storage.Controller.Client.{KubeError, not_found, other, Client, DataStore}

abbrev pub is_empty : List RaftPartitionStatus → Bool
is_empty [] = true
is_empty (p ∷ ps) = false

module _ {S : Type 0} (client : Client S) (store : ConsensusStore) where
  unfoldable pub create_cluster : Exec S KubeError Bool
  unfolding new_cluster_labels new_cluster_annotations
  create_cluster = do
    meta ← client.set_controller store.meta (record {
      namespace = store.meta.namespace;
      name = store.meta.name;
      labels = new_cluster_labels store;
      annotations = new_cluster_annotations store;
    })
    client.create_cluster (record {
      meta = meta;
      spec = store.spec;
      status = record { state = unset; partitions = [] };
    })
    pure false

  unfoldable pub set_state : State → Exec S KubeError Bool
  set_state state = do client.update_store_status (record store { state = state }); pure true

  unfoldable pub create_data_store : MultiRaftCluster → Exec S KubeError Bool
  unfolding get_protocol_config
  create_data_store c = do
    meta ← client.set_controller store.meta (record {
      namespace = store.meta.namespace;
      name = store.meta.name;
      labels = store.meta.labels;
      annotations = [];
    })
    client.create_data_store
        (record { meta = meta; config = ok (get_protocol_config c.status.partitions) })
    pure false

  -- The data store that was found follows the partitions; then the store may become ready.
  unfoldable pub follow_cluster : MultiRaftCluster → DataStore → Exec S KubeError Bool
  unfolding set_state get_protocol_config is_protocol_config_equal
  follow_cluster c stored = elim stored.config [
    | err message ↦ fail (other message)
    | ok config ↦
        if not (is_protocol_config_equal config (get_protocol_config c.status.partitions))
        then (do
          client.update_data_store
              (record stored { config = ok (get_protocol_config c.status.partitions) })
          pure false)
        else if is_ready c.status.state && not (is_ready store.state)
        then set_state ready
        else pure false
  ]

  unfoldable pub reconcile_data_store : MultiRaftCluster → Exec S KubeError Bool
  unfolding create_data_store follow_cluster
  reconcile_data_store c = do
    found ← attempt (client.get_data_store store.meta.namespace store.meta.name)
    elim found [
      | err not_found ↦ create_data_store c
      | err e ↦ fail e
      | ok stored ↦ follow_cluster c stored
    ]

  -- What follows once the cluster has been read. An error that is not `NotFound` leaves `cluster` empty,
  -- and the pass goes on with it.
  unfoldable pub follow : MultiRaftCluster → Exec S KubeError Bool
  unfolding reconcile_data_store set_state
  follow c =
      if is_empty c.status.partitions
      then pure false
      else if is_not_ready c.status.state && not (is_not_ready store.state)
      then set_state not_ready
      else reconcile_data_store c

-- The value of `&MultiRaftCluster{}`.
abbrev pub empty_cluster : MultiRaftCluster
empty_cluster = record {
  meta = record { namespace = ""; name = ""; labels = []; annotations = [] };
  spec = record {
    replicas = pos 0;
    groups = pos 0;
    image = "";
    image_pull_policy = "";
    image_pull_secrets = [];
    security_context = none;
    volume_claim_template = none;
    config = record {
      server = record {
        read_buffer_size = none;
        write_buffer_size = none;
        max_recv_msg_size = none;
        max_send_msg_size = none;
        num_stream_workers = none;
        max_concurrent_streams = none;
      };
      raft = record {
        quorum_size = none;
        read_replicas = none;
        heartbeat_period = none;
        election_timeout = none;
        snapshot_entry_threshold = none;
        compaction_retain_entries = none;
      };
      logging = record { loggers = []; sinks = [] };
    };
  };
  status = record { state = unset; partitions = [] };
}

unfoldable pub reconcile_store : {S : Type 0} → Client S → ConsensusStore → Exec S KubeError Bool
unfolding create_cluster follow
reconcile_store client store = do
  found ← attempt (client.get_cluster store.meta.namespace store.meta.name)
  elim found [
    | err not_found ↦ create_cluster client store
    | err (other _) ↦ follow client store empty_cluster
    | ok c ↦ follow client store c
  ]

unfoldable pub reconcile : {S : Type 0} → Client S → String → String → Exec S KubeError Bool
unfolding reconcile_store
reconcile client namespace name = do
  found ← attempt (client.get_store namespace name)
  elim found [
    | err not_found ↦ pure false
    | err e ↦ fail e
    | ok store ↦ reconcile_store client store
  ]
