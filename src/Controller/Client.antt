-- ===== src/Controller/Client.antt =====
-- What the reconcilers use of the Kubernetes API, of gRPC and of controller-runtime: an interface over
-- a state `S` that each call may read and change.
use multi_raft_storage.Prelude.{String, Bool, List, Exec, Result}
use multi_raft_storage.Prelude.Int.{ℤ}
use multi_raft_storage.Node.Config.{Config}
use multi_raft_storage.Node.Group.{GroupConfig}
use multi_raft_storage.Controller.Api.{
  LoggingConfig, ObjectMeta, MultiRaftCluster, RaftGroup, RaftMember, ConsensusStore,
}
use multi_raft_storage.Controller.Statuses.{PartitionConfig}
use multi_raft_storage.Controller.Kube.{StatefulSet, Service}

pub data KubeError : Type 0 where
  not_found : KubeError
  other : String → KubeError

pub record Pod : Type 0 where
  pub meta : ObjectMeta
  pub uid : String
  pub pod_ip : String
  pub container_statuses : List (String × ℤ)
  pub finalizers : List String
  pub deleting : Bool

-- The `DataStore` of the runtime: its configuration stands decoded.
pub record DataStore : Type 0 where
  pub meta : ObjectMeta
  pub config : Result String (List PartitionConfig)

pub record Client (S : Type 0) : Type 0 where
  pub get_store : String → String → Exec S KubeError ConsensusStore
  pub update_store_status : ConsensusStore → Exec S KubeError (Unit {0})
  pub get_cluster : String → String → Exec S KubeError MultiRaftCluster
  pub create_cluster : MultiRaftCluster → Exec S KubeError (Unit {0})
  pub update_cluster_status : MultiRaftCluster → Exec S KubeError (Unit {0})
  pub get_group : String → String → Exec S KubeError RaftGroup
  pub create_group : RaftGroup → Exec S KubeError (Unit {0})
  pub update_group_status : RaftGroup → Exec S KubeError (Unit {0})
  pub get_member : String → String → Exec S KubeError RaftMember
  pub create_member : RaftMember → Exec S KubeError (Unit {0})
  pub update_member_status : RaftMember → Exec S KubeError (Unit {0})
  pub get_data_store : String → String → Exec S KubeError DataStore
  pub create_data_store : DataStore → Exec S KubeError (Unit {0})
  pub update_data_store : DataStore → Exec S KubeError (Unit {0})
  pub get_pod : String → String → Exec S KubeError Pod
  pub update_pod : Pod → Exec S KubeError (Unit {0})
  -- `Get` of the config map, the stateful set and the services, by kind, namespace and name, and their
  -- `Create`, for the config map by its metadata and its files
  pub get_resource : String → String → String → Exec S KubeError (Unit {0})
  pub create_stateful_set : StatefulSet → Exec S KubeError (Unit {0})
  pub create_service : Service → Exec S KubeError (Unit {0})
  pub marshal_yaml : Config → Exec S KubeError String
  pub marshal_logging : LoggingConfig → Exec S KubeError String
  pub create_config_map : ObjectMeta → List (String × String) → Exec S KubeError (Unit {0})
  -- `SetControllerReference` and `SetOwnerReference`: the owner, then the object
  pub set_controller : ObjectMeta → ObjectMeta → Exec S KubeError ObjectMeta
  pub set_owner : ObjectMeta → ObjectMeta → Exec S KubeError ObjectMeta
  -- the connection to a node and its `Bootstrap`, by address
  pub dial : String → Exec S KubeError (Unit {0})
  pub bootstrap : String → GroupConfig → Exec S KubeError (Unit {0})
  -- a recorded event, by its reason
  pub record_event : String → Exec S KubeError (Unit {0})
