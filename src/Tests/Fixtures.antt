-- ===== src/Tests/Fixtures.antt =====
-- The clusters, stores, pods and members, and the API server, that the tests run on.
use multi_raft_storage.Prelude.{
  nat_Eq, ℕ, suc, refl, String, true, false, List, [], ◌∷◌, Option, none, some, arith, Result, ok,
  err, string_Eq,
}
use multi_raft_storage.Prelude.Int.{ℤ, pos, int64, ◌+ℤ◌}
use multi_raft_storage.Controller.Api.{
  not_ready, RaftMember, voting_member, ready, ObjectMeta, RaftConfig, MultiRaftServerConfig,
  MultiRaftClusterSpec, RaftPartitionStatus, MultiRaftCluster, RaftMemberStatus, ConsensusStore,
}
use multi_raft_storage.Controller.Placement.{get_num_members, get_num_replicas}
use multi_raft_storage.Controller.Placement.Ordinals.{IsSized}
use multi_raft_storage.Controller.Statuses.{get_protocol_config}
use multi_raft_storage.Controller.Client.{Pod, KubeError, not_found, Client}

abbrev pub named : String → ObjectMeta
named name = record {
  namespace = "default";
  name = name;
  labels = ("app", name) ∷ [];
  annotations = ("note", "x") ∷ [];
}

abbrev pub server : MultiRaftServerConfig
server = record {
  read_buffer_size = none;
  write_buffer_size = none;
  max_recv_msg_size = none;
  max_send_msg_size = none;
  num_stream_workers = none;
  max_concurrent_streams = none;
}

abbrev pub raft : Option ℤ → RaftConfig
raft read_replicas = record {
  quorum_size = none;
  read_replicas = read_replicas;
  heartbeat_period = none;
  election_timeout = none;
  snapshot_entry_threshold = none;
  compaction_retain_entries = none;
}

abbrev pub spec : Option ℤ → MultiRaftClusterSpec
spec read_replicas = record {
  replicas = pos 3;
  groups = pos 2;
  image = "";
  image_pull_policy = "";
  image_pull_secrets = [];
  security_context = none;
  volume_claim_template = none;
  config = record {
    server = server;
    raft = raft read_replicas;
    logging = record { loggers = []; sinks = [] };
  };
}

abbrev pub partitions : List RaftPartitionStatus
partitions = record { partition_id = pos 1; leader = some "a"; followers = "b" ∷ "c" ∷ [] } ∷ []

abbrev pub turned : List RaftPartitionStatus
turned = record { partition_id = pos 1; leader = some "a"; followers = "c" ∷ "b" ∷ [] } ∷ []

abbrev pub cluster : Option ℤ → MultiRaftCluster
cluster read_replicas = record {
  meta = named "raft";
  spec = spec read_replicas;
  status = record { state = ready; partitions = partitions };
}

abbrev pub store : ConsensusStore
store = record { meta = named "raft"; spec = spec none; state = ready }

-- Three replicas and three members: a pod for each.
pub sized : IsSized (cluster none) 3 3
unfolding get_num_replicas get_num_members int64 ◌+ℤ◌
sized = record {
  replicas = refl;
  members = refl;
  some_replica = omega arith;
  few_members = omega arith;
}

-- Two read replicas besides: five members.
pub crowded : IsSized (cluster (some (pos 2))) 3 5
unfolding get_num_replicas get_num_members int64 ◌+ℤ◌
crowded = record {
  replicas = refl;
  members = refl;
  some_replica = omega arith;
  few_members = omega arith;
}

abbrev pub member_status : RaftMemberStatus
member_status = record {
  pod_ref = none;
  version = some (pos 1);
  state = ready;
  role = none;
  leader = none;
  term = some 2;
  last_updated = none;
  last_snapshot_index = some 10;
  last_snapshot_time = none;
}

-- An API server without groups, members and pods, whose clusters are as given.
abbrev pub api_server : Result KubeError MultiRaftCluster → Client ℕ
api_server found = record {
  get_store = λ namespace name s. (ok store, s);
  update_store_status = λ o s. (ok tt, suc s);
  get_cluster = λ namespace name s. (found, s);
  create_cluster = λ o s. (ok tt, suc s);
  update_cluster_status = λ o s. (ok tt, suc s);
  get_group = λ namespace name s. (err not_found, s);
  create_group = λ o s. (ok tt, suc s);
  update_group_status = λ o s. (ok tt, suc s);
  get_member = λ namespace name s. (err not_found, s);
  create_member = λ o s. (ok tt, suc s);
  update_member_status = λ o s. (ok tt, suc s);
  get_data_store = λ namespace name s.
      (ok (record { meta = named "raft"; config = ok (get_protocol_config partitions) }), s);
  create_data_store = λ o s. (ok tt, suc s);
  update_data_store = λ o s. (ok tt, suc s);
  get_pod = λ namespace name s. (err not_found, s);
  update_pod = λ o s. (ok tt, suc s);
  get_resource = λ kind namespace name s. (ok tt, s);
  create_stateful_set = λ o s. (ok tt, suc s);
  create_service = λ o s. (ok tt, suc s);
  marshal_yaml = λ config s. (ok "", s);
  marshal_logging = λ config s. (ok "", s);
  create_config_map = λ meta config s. (ok tt, suc s);
  set_controller = λ owner meta s. (ok meta, s);
  set_owner = λ owner meta s. (ok meta, s);
  dial = λ address s. (ok tt, s);
  bootstrap = λ address config s. (ok tt, s);
  record_event = λ reason s. (ok tt, s);
}

abbrev pub deleted_pod : Pod
deleted_pod = record {
  meta = record {
    namespace = "default";
    name = "raft-0";
    labels = [];
    annotations = ("multiraft.atomix.io/store", "raft") ∷ [];
  };
  uid = "1";
  pod_ip = "10.0.0.1";
  container_statuses = [];
  finalizers = "other" ∷ "multiraft.atomix.io/pod" ∷ [];
  deleting = true;
}

abbrev pub running_pod : Pod
running_pod = record deleted_pod {
  container_statuses = ("atomix-consensus-node", pos 0) ∷ [];
  deleting = false;
}

abbrev pub stopped_member : RaftMember
stopped_member = record {
  meta = named "raft-1-1";
  spec = record { pod = "raft-0"; member_type = voting_member };
  status = record member_status {
    pod_ref = some (record { namespace = "default"; name = "raft-0"; uid = "1" });
    version = none;
    state = not_ready;
  };
}

abbrev pub started_member : RaftMember
started_member = record stopped_member {
  status = record stopped_member.status { version = some (pos 1) };
}
