-- ===== src/Controller/Api.antt =====
-- controller/pkg/apis/consensus/v1beta1: the custom resources. An `int32` is an integer, a pointer an
-- `Option`, a reference to an object in the same namespace its name, a time a number. A list that
-- is nil and one that is empty are one value: both are left out of the stored object.
use multi_raft_storage.Prelude.{ℕ, String, Bool, true, false, List, Option}
use multi_raft_storage.Prelude.Int.{ℤ}

-- The values of the state strings: the zero value, "NotReady" and "Ready".
pub data State : Type 0 where
  unset not_ready ready : State

abbrev pub is_not_ready : State → Bool
is_not_ready not_ready = true
is_not_ready _ = false

abbrev pub is_ready : State → Bool
is_ready ready = true
is_ready _ = false

pub data MemberType : Type 0 where
  voting_member witness observer : MemberType

pub data MemberRole : Type 0 where
  leader candidate follower : MemberRole

pub record ObjectMeta : Type 0 where
  pub namespace : String
  pub name : String
  pub labels : List (String × String)
  pub annotations : List (String × String)

pub record RaftConfig : Type 0 where
  pub quorum_size : Option ℤ
  pub read_replicas : Option ℤ
  pub heartbeat_period : Option ℤ
  pub election_timeout : Option ℤ
  pub snapshot_entry_threshold : Option ℤ
  pub compaction_retain_entries : Option ℤ

-- A `resource.Quantity` stands as its `Value()`.
pub record MultiRaftServerConfig : Type 0 where
  pub read_buffer_size : Option ℤ
  pub write_buffer_size : Option ℤ
  pub max_recv_msg_size : Option ℤ
  pub max_send_msg_size : Option ℤ
  pub num_stream_workers : Option ℕ
  pub max_concurrent_streams : Option ℕ

pub record OutputConfig : Type 0 where
  pub sink : Option String
  pub level : Option String

pub record LoggerConfig : Type 0 where
  pub level : Option String
  pub output : List (String × OutputConfig)

-- The sinks of the standard streams have no fields; a file sink is its path.
pub record SinkConfig : Type 0 where
  pub encoding : Option String
  pub stdout : Option (Unit {0})
  pub stderr : Option (Unit {0})
  pub file : Option String

pub record LoggingConfig : Type 0 where
  pub loggers : List (String × LoggerConfig)
  pub sinks : List (String × SinkConfig)

pub record MultiRaftClusterConfig : Type 0 where
  pub server : MultiRaftServerConfig
  pub raft : RaftConfig
  pub logging : LoggingConfig

-- A claim by its name; the rest of it only passes on, as a text.
pub record PersistentVolumeClaim : Type 0 where
  pub name : String
  pub rest : String

-- The secrets stand as their names, the security context as a text.
pub record MultiRaftClusterSpec : Type 0 where
  pub replicas : ℤ
  pub groups : ℤ
  pub image : String
  pub image_pull_policy : String
  pub image_pull_secrets : List String
  pub security_context : Option String
  pub volume_claim_template : Option PersistentVolumeClaim
  pub config : MultiRaftClusterConfig

pub record RaftPartitionStatus : Type 0 where
  pub partition_id : ℤ
  pub leader : Option String
  pub followers : List String

pub record MultiRaftClusterStatus : Type 0 where
  pub state : State
  pub partitions : List RaftPartitionStatus

pub record MultiRaftCluster : Type 0 where
  pub meta : ObjectMeta
  pub spec : MultiRaftClusterSpec
  pub status : MultiRaftClusterStatus

pub record RaftGroupStatus : Type 0 where
  pub state : State
  pub term : Option ℕ
  pub leader : Option String
  pub followers : List String

pub record RaftGroup : Type 0 where
  pub meta : ObjectMeta
  pub spec : RaftConfig
  pub status : RaftGroupStatus

pub record ObjectReference : Type 0 where
  pub namespace : String
  pub name : String
  pub uid : String

pub record RaftMemberSpec : Type 0 where
  pub pod : String
  pub member_type : MemberType

pub record RaftMemberStatus : Type 0 where
  pub pod_ref : Option ObjectReference
  pub version : Option ℤ
  pub state : State
  pub role : Option MemberRole
  pub leader : Option String
  pub term : Option ℕ
  pub last_updated : Option ℕ
  pub last_snapshot_index : Option ℕ
  pub last_snapshot_time : Option ℕ

pub record RaftMember : Type 0 where
  pub meta : ObjectMeta
  pub spec : RaftMemberSpec
  pub status : RaftMemberStatus

pub record ConsensusStore : Type 0 where
  pub meta : ObjectMeta
  pub spec : MultiRaftClusterSpec
  pub state : State
