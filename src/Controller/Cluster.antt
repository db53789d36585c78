-- ===== src/Controller/Cluster.antt =====
-- controller/pkg/controller/consensus/v1beta1/cluster.go: the reconciler of a cluster, its groups and
-- their members. `true` beside a result says that the pass has written, and stops it.
pub mod Workloads
pub mod Resources
pub mod Groups
pub mod Writes
pub mod Passes
pub mod Targets
pub mod Logged
pub mod Starts
pub mod Converge
use multi_raft_storage.Prelude.{
  ℕ, zero, suc, ◌+◌, String, Bool, true, false, not, ◌&&◌, ◌||◌, List, [], ◌∷◌, Option, none, some,
  Result, ok, err, Exec, pure, fail, attempt, ◌>>=◌, ◌>>◌, str_eq, if◌then◌else◌,
}
use multi_raft_storage.Prelude.Int.{ℤ, pos, pos_part, ◌+ℤ◌, int32, u32, uint64, ltb_ℤ, leb_ℤ}
use multi_raft_storage.Prelude.Text.{◌⊕◌, show_int}
use multi_raft_storage.Node.Group.{MemberConfig, GroupConfig}
use multi_raft_storage.Node.Group
use multi_raft_storage.Controller.Api.{
  State, unset, not_ready, ready, is_not_ready, MemberType, voting_member, observer, witness,
  RaftPartitionStatus, MultiRaftCluster, RaftGroup, RaftMember, ObjectReference,
}
use multi_raft_storage.Controller.Placement.{
  get_num_groups, get_num_members, get_num_voting_members, get_pod_name, get_pod_dns_name,
  get_headless_service_name,
}
use multi_raft_storage.Controller.Labels.{
  new_group_labels, new_group_annotations, new_member_labels, new_member_annotations,
}
use multi_raft_storage.Controller.Statuses.{is_partition_statuses_equal}
use multi_raft_storage.Controller.Client.{KubeError, not_found, Client, Pod}

abbrev pub same_state : State → State → Bool
same_state unset unset = true
same_state not_ready not_ready = true
same_state ready ready = true
same_state _ _ = false

-- The type of a new member by its number: voters first, then observers.
unfoldable pub member_type : MultiRaftCluster → ℤ → MemberType
unfolding get_num_voting_members get_num_members
member_type c m =
    if leb_ℤ m (get_num_voting_members c)
    then voting_member
    else if leb_ℤ m (get_num_members c)
    then observer
    else witness

-- The schema of the members, controller/helm/crds/consensus.atomix.io/raftmembers.yaml, admits these types only.
abbrev pub role_of : MemberType → Group.MemberRole
role_of voting_member = Group.member
role_of observer = Group.observer
role_of witness = Group.witness

-- The version of the node's container: one more than its restarts, or 0 while it has no status.
unfoldable pub container_version : List (String × ℤ) → ℤ
container_version [] = pos 0
container_version ((name, restarts) ∷ cs) =
    if str_eq name "atomix-consensus-node" then int32 (restarts +ℤ pos 1) else container_version cs

module _ (domain : String) (c : MultiRaftCluster) (g : ℤ) where
  -- The members from number `i` on, as the bootstrap request lists them.
  unfoldable pub members_from : ℕ → ℕ → List MemberConfig
  members_from zero i = []
  members_from (suc rounds) i =
      record {
        member_id = u32 i;
        host = get_pod_dns_name domain c.meta.namespace c.meta.name (get_pod_name c g (pos i));
        port = pos 5679;
      }
      ∷ members_from rounds (suc i)

  unfoldable pub bootstrap_request : ℤ → MemberType → GroupConfig
  unfolding members_from get_num_members
  bootstrap_request m t = record {
    group_id = u32 (uint64 g);
    member_id = u32 (uint64 m);
    role = role_of t;
    members = members_from (pos_part (get_num_members c)) 1;
  }

abbrev pub same_pod : Option ObjectReference → Pod → Bool
same_pod none p = false
same_pod (some ref) p = str_eq ref.uid p.uid

abbrev pub is_outdated : Option ℤ → ℤ → Bool
is_outdated none v = true
is_outdated (some old) v = ltb_ℤ old v

module _ {S : Type 0} (client : Client S) (domain : String) (c : MultiRaftCluster) where
  -- A member that is not there is created.
  unfoldable pub create_member : RaftGroup → ℤ → ℤ → Exec S KubeError (RaftMember × Bool)
  unfolding member_type get_pod_name new_member_labels new_member_annotations
  create_member group g m = do
    owned ← client.set_controller c.meta (record {
      namespace = group.meta.namespace;
      name = group.meta.name ⊕ "-" ⊕ show_int m;
      labels = new_member_labels group m;
      annotations = new_member_annotations group m;
    })
    meta ← client.set_owner group.meta owned
    let member : RaftMember = record {
      meta = meta;
      spec = record { pod = get_pod_name c g m; member_type = member_type c m };
      status = record {
        pod_ref = none;
        version = none;
        state = unset;
        role = none;
        leader = none;
        term = none;
        last_updated = none;
        last_snapshot_index = none;
        last_snapshot_time = none;
      };
    }
    client.create_member member
    pure (member, true)

  -- The node is started for the member, and the version of its container is kept.
  unfoldable pub start_member : ℤ → ℤ → ℤ → Pod → RaftMember → Exec S KubeError (RaftMember × Bool)
  unfolding bootstrap_request
  start_member g m version pod member = do
    let address = pod.pod_ip ⊕ ":" ⊕ show_int (pos 5678)
    client.dial address
    client.bootstrap address (bootstrap_request domain c g m member.spec.member_type)
    let started : RaftMember = record member {
      status = record member.status { version = some version };
    }
    client.update_member_status started
    pure (started, true)

  -- A member that is there follows its pod: a new pod is recorded, a container that was started anew
  -- makes the member not ready and then starts it.
  unfoldable pub follow_pod : ℤ → ℤ → Pod → RaftMember → Exec S KubeError (RaftMember × Bool)
  unfolding start_member container_version
  follow_pod g m pod member =
      if not (same_pod member.status.pod_ref pod)
      then (do
        let moved : RaftMember = record member {
          status = record member.status {
            pod_ref =
                some
                  (record { namespace = pod.meta.namespace; name = pod.meta.name; uid = pod.uid });
            version = none;
          };
        }
        client.update_member_status moved
        pure (moved, true))
      else if not (is_outdated member.status.version (container_version pod.container_statuses))
      then pure (member, false)
      else if not (is_not_ready member.status.state)
      then (do
        let stopped : RaftMember = record member {
          status = record member.status { state = not_ready };
        }
        client.update_member_status stopped
        client.record_event "StateChanged"
        pure (stopped, true))
      else start_member g m (container_version pod.container_statuses) pod member

  -- What follows the look-up of the member.
  unfoldable pub follow_member :
      RaftGroup → ℤ → ℤ → Result KubeError RaftMember → Exec S KubeError (RaftMember × Bool)
  unfolding create_member follow_pod
  follow_member group g m (err not_found) = create_member group g m
  follow_member group g m (err e) = fail e
  follow_member group g m (ok member) = do
    pod ← client.get_pod member.meta.namespace member.spec.pod
    follow_pod g m pod member

  unfoldable pub reconcile_member : RaftGroup → ℤ → ℤ → Exec S KubeError (RaftMember × Bool)
  unfolding follow_member
  reconcile_member group g m = do
    found ← attempt (client.get_member group.meta.namespace (group.meta.name ⊕ "-" ⊕ show_int m))
    follow_member group g m found
