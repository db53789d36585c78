-- ===== src/Controller/Cluster/Groups.antt =====
-- controller/pkg/controller/consensus/v1beta1/cluster.go: the loops of the reconciler over the groups
-- and their members, the partitions of the cluster's status, and one whole pass. A loop that ends
-- early because a call has written returns `none`.
use multi_raft_storage.Prelude.{
  ℕ, zero, suc, String, Bool, true, false, List, [], ◌∷◌, Option, none, some, Result, ok, err, Exec,
  pure, fail, attempt, ◌>>=◌, ◌>>◌, if◌then◌else◌,
}
use multi_raft_storage.Prelude.Int.{ℤ, pos, pos_part, int32}
use multi_raft_storage.Prelude.Text.{◌⊕◌, show_int}
use multi_raft_storage.Controller.Api.{
  State, unset, not_ready, ready, is_not_ready, RaftPartitionStatus, MultiRaftCluster, RaftGroup,
}
use multi_raft_storage.Controller.Placement.{get_num_groups, get_num_members, get_pod_dns_name}
use multi_raft_storage.Controller.Labels.{new_group_labels, new_group_annotations}
use multi_raft_storage.Controller.Statuses.{is_partition_statuses_equal}
use multi_raft_storage.Controller.Client.{KubeError, not_found, Client}
use multi_raft_storage.Controller.Cluster.{same_state, reconcile_member}
use multi_raft_storage.Controller.Cluster.Resources.{
  reconcile_config_map, reconcile_stateful_set, reconcile_service, reconcile_headless_service,
}

module _ {S : Type 0} (client : Client S) (domain : String) (c : MultiRaftCluster) where
  -- The members from number `m` on, and the state that the group comes to.
  unfoldable pub members_loop : RaftGroup → ℤ → State → ℕ → ℕ → Exec S KubeError (Option State)
  unfolding reconcile_member
  members_loop group g state zero m = pure (some state)
  members_loop group g state (suc rounds) m = do
    (member, written) ← reconcile_member client domain c group g (pos m)
    elim written [
      | true ↦ pure none
      | false ↦
          members_loop group g (if is_not_ready member.status.state then not_ready else state)
            rounds (suc m)
    ]

  -- `if group.Status.State != state { … }`, with the write of the new state.
  unfoldable pub settle_group : RaftGroup → Option State → Exec S KubeError Bool
  settle_group group none = pure true
  settle_group group (some state) = if same_state group.status.state state then pure false else (do
    client.update_group_status (record group { status = record group.status { state = state } })
    pure true)

  unfoldable pub reconcile_members : RaftGroup → ℤ → Exec S KubeError Bool
  unfolding members_loop settle_group get_num_members
  reconcile_members group g = do
    reached ← members_loop group g ready (pos_part (get_num_members c)) 1
    settle_group group reached

  unfoldable pub create_group : ℤ → Exec S KubeError (RaftGroup × Bool)
  unfolding new_group_labels new_group_annotations
  create_group g = do
    meta ← client.set_controller c.meta (record {
      namespace = c.meta.namespace;
      name = c.meta.name ⊕ "-" ⊕ show_int g;
      labels = new_group_labels c g;
      annotations = new_group_annotations c g;
    })
    let group : RaftGroup = record {
      meta = meta;
      spec = c.spec.config.raft;
      status = record { state = unset; term = none; leader = none; followers = [] };
    }
    client.create_group group
    pure (group, true)

  -- What follows the look-up of the group. The state that the members' pass writes into the group is
  -- not read again: a pass that has written ends.
  unfoldable pub follow_group : ℤ → Result KubeError RaftGroup → Exec S KubeError (RaftGroup × Bool)
  unfolding create_group reconcile_members
  follow_group g (err not_found) = create_group g
  follow_group g (err e) = fail e
  follow_group g (ok group) = do written ← reconcile_members group g; pure (group, written)

  unfoldable pub reconcile_group : ℤ → Exec S KubeError (RaftGroup × Bool)
  unfolding follow_group
  reconcile_group g = do
    found ← attempt (client.get_group c.meta.namespace (c.meta.name ⊕ "-" ⊕ show_int g))
    follow_group g found

  unfoldable pub groups_loop : State → ℕ → ℕ → Exec S KubeError (Option State)
  unfolding reconcile_group
  groups_loop state zero g = pure (some state)
  groups_loop state (suc rounds) g = do
    (group, written) ← reconcile_group (pos g)
    elim written [
      | true ↦ pure none
      | false ↦
          groups_loop (if is_not_ready group.status.state then not_ready else state) rounds (suc g)
    ]

  unfoldable pub settle_cluster : Option State → Exec S KubeError Bool
  settle_cluster none = pure true
  settle_cluster (some state) = if same_state c.status.state state then pure false else (do
    client.update_cluster_status (record c { status = record c.status { state = state } })
    pure true)

  unfoldable pub reconcile_groups : Exec S KubeError Bool
  unfolding groups_loop settle_cluster get_num_groups
  reconcile_groups = do
    reached ← groups_loop ready (pos_part (get_num_groups c)) 1
    settle_cluster reached

  -- The address of the node that runs a member.
  unfoldable pub member_address : String → String → Exec S KubeError String
  unfolding get_pod_dns_name
  member_address namespace name = do
    member ← client.get_member namespace name
    pure (
        get_pod_dns_name domain c.meta.namespace c.meta.name member.spec.pod
        ⊕ ":"
        ⊕ show_int (pos 5678))

  unfoldable pub leader_address : String → Option String → Exec S KubeError (Option String)
  unfolding member_address
  leader_address namespace none = pure none
  leader_address namespace (some name) = do
    address ← member_address namespace name
    pure (some address)

  unfoldable pub follower_addresses : String → List String → Exec S KubeError (List String)
  unfolding member_address
  follower_addresses namespace [] = pure []
  follower_addresses namespace (name ∷ names) = do
    address ← member_address namespace name
    addresses ← follower_addresses namespace names
    pure (address ∷ addresses)

  unfoldable pub partition_statuses : ℕ → ℕ → Exec S KubeError (List RaftPartitionStatus)
  unfolding leader_address follower_addresses
  partition_statuses zero g = pure []
  partition_statuses (suc rounds) g = do
    group ← client.get_group c.meta.namespace (c.meta.name ⊕ "-" ⊕ show_int (pos g))
    leader ← leader_address group.meta.namespace group.status.leader
    followers ← follower_addresses group.meta.namespace group.status.followers
    rest ← partition_statuses rounds (suc g)
    let partition : RaftPartitionStatus = record {
      partition_id = int32 (pos g);
      leader = leader;
      followers = followers;
    }
    pure (partition ∷ rest)

  -- For a negative number of groups, at which Go's `make` panics, there are none.
  unfoldable pub get_partition_statuses : Exec S KubeError (List RaftPartitionStatus)
  unfolding partition_statuses get_num_groups
  get_partition_statuses = partition_statuses (pos_part (get_num_groups c)) 1

  unfoldable pub reconcile_status : Exec S KubeError Bool
  unfolding get_partition_statuses is_partition_statuses_equal
  reconcile_status = do
    partitions ← get_partition_statuses
    elim (is_partition_statuses_equal c.status.partitions partitions) [
      | true ↦ pure false
      | false ↦ do
        client.update_cluster_status
            (record c { status = record c.status { partitions = partitions } })
        pure true
    ]

  -- One pass over a cluster that was read; `env` is the value of `DEFAULT_NODE_IMAGE`.
  unfoldable pub reconcile_cluster : String → Exec S KubeError (Unit {0})
  unfolding reconcile_config_map reconcile_stateful_set reconcile_service reconcile_headless_service
      reconcile_groups reconcile_status
  reconcile_cluster env = do
    reconcile_config_map client env domain c
    reconcile_stateful_set client env domain c
    reconcile_service client env domain c
    reconcile_headless_service client env domain c
    written ← reconcile_groups
    if written then pure tt else (do reconcile_status; pure tt)

-- One pass for the cluster of that name.
unfoldable pub reconcile :
    {S : Type 0} → Client S → String → String → String → String → Exec S KubeError (Unit {0})
unfolding reconcile_cluster
reconcile client env domain namespace name = do
  found ← attempt (client.get_cluster namespace name)
  elim found [
    | err not_found ↦ pure tt
    | err e ↦ fail e
    | ok c ↦ reconcile_cluster client domain c env
  ]
