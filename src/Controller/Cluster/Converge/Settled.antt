-- ===== src/Controller/Cluster/Converge/Settled.antt =====
-- What is left of a cluster whose groups are there, before and after its state is written.
use multi_raft_storage.Prelude.{ℕ, ◌+◌, ◌*◌, ◌<◌, ◌≡◌, refl, true, false, arith}
use multi_raft_storage.Controller.Api.{State, ready, MultiRaftCluster}
use multi_raft_storage.Controller.Placement.{
  get_num_groups, get_num_members, get_num_voting_members, get_num_non_voting_members,
  get_num_replicas,
}
use multi_raft_storage.Controller.Cluster.{same_state}
use multi_raft_storage.Controller.Cluster.Converge.{
  Db, put_cluster, groups_state, num_groups, num_members, members_left, groups_left, cluster_left,
  work_left, phase,
}
use multi_raft_storage.Controller.Cluster.Converge.Sums.{sum_zero}
use multi_raft_storage.Controller.Cluster.Converge.Groups.{same_state_refl}
use multi_raft_storage.Controller.Cluster.Converge.Passes.{GroupsThere}

module _ (c : MultiRaftCluster) (db : Db) where
  pub nothing_left :
      (reached : State)
      → GroupsThere c db ready (num_groups c) 1 reached
      → (members_left c db ≡ 0) × (groups_left c db ≡ 0)
  unfolding members_left groups_left
  nothing_left reached all = (
    sum_zero _ (num_groups c) 1
        (λ g lo hi. sum_zero _ (num_members c) 1 (all.there_each g lo hi).members_there),
    sum_zero _ (num_groups c) 1 (λ g lo hi. (all.there_each g lo hi).group_there),
  )

  -- The cluster with another state, stored: the counts and the names are the same.
  unfoldable pub with_state : State → MultiRaftCluster
  with_state state = record c { status = record c.status { state = state } }

  pub members_left-with_state :
      (state : State)
      → members_left (with_state state) (put_cluster (with_state state) db) ≡ members_left c db
  unfolding with_state members_left phase get_num_groups get_num_members get_num_voting_members
      get_num_non_voting_members get_num_replicas
  members_left-with_state state = refl

  pub groups_left-with_state :
      (state : State)
      → groups_left (with_state state) (put_cluster (with_state state) db) ≡ groups_left c db
  unfolding with_state groups_left get_num_groups get_num_members get_num_voting_members
      get_num_non_voting_members get_num_replicas
  groups_left-with_state state = refl

  pub weight_of : MultiRaftCluster → ℕ
  weight_of d = 4 * num_groups d + 4

  pub weight_of-with_state : (state : State) → weight_of (with_state state) ≡ weight_of c
  unfolding weight_of with_state get_num_groups
  weight_of-with_state state = refl

  pub cluster_left-with_state :
      (state : State)
      → groups_state db.groups c.meta.namespace c.meta.name ready (num_groups c) 1 ≡ state
      → cluster_left (with_state state) (put_cluster (with_state state) db) ≡ 0
  unfolding cluster_left with_state get_num_groups
  cluster_left-with_state state reached = rw (reached, same_state_refl state) refl

  pub cluster_left_of :
      (state : State)
      → groups_state db.groups c.meta.namespace c.meta.name ready (num_groups c) 1 ≡ state
      → same_state c.status.state state ≡ false
      → cluster_left c db ≡ 1
  unfolding cluster_left
  cluster_left_of state reached open_still = rw (reached, open_still) refl

  pub settled_less :
      (state : State)
      → groups_state db.groups c.meta.namespace c.meta.name ready (num_groups c) 1 ≡ state
      → same_state c.status.state state ≡ false
      → work_left (with_state state) (put_cluster (with_state state) db) < work_left c db
  unfolding work_left weight_of
  settled_less state reached open_still =
      let now : cluster_left c db ≡ 1 = cluster_left_of state reached open_still in
      rw
        (
          members_left-with_state state,
          groups_left-with_state state,
          cluster_left-with_state state reached,
          now,
        )
        (rw (weight_of-with_state state) (omega arith))

  pub cluster_settled :
      (state : State)
      → groups_state db.groups c.meta.namespace c.meta.name ready (num_groups c) 1 ≡ state
      → same_state c.status.state state ≡ true
      → cluster_left c db ≡ 0
  unfolding cluster_left
  cluster_settled state reached settled = rw (reached, settled) refl

  pub nothing_to_do :
      (state : State)
      → GroupsThere c db ready (num_groups c) 1 state
      → same_state c.status.state state ≡ true
      → work_left c db ≡ 0
  unfolding work_left
  nothing_to_do state all settled =
      let left = nothing_left state all in
      rw (left.0, left.1, cluster_settled state all.state_of settled) (omega arith)
