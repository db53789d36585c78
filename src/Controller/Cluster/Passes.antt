-- ===== src/Controller/Cluster/Passes.antt =====
-- One pass over the groups and their members writes at most once.
use multi_raft_storage.Prelude.{
  ℕ, zero, suc, ◌≡◌, refl, inl, inr, Bool, true, false, Option, none, some, arith, String, Result,
  ok, err, Bool-cases,
}
use multi_raft_storage.Prelude.Int.{ℤ, pos, pos_part}
use multi_raft_storage.Controller.Api.{MultiRaftCluster, RaftGroup, State, ready}
use multi_raft_storage.Controller.Placement.{get_num_groups, get_num_members}
use multi_raft_storage.Controller.Client.{KubeError, not_found, other, Client}
use multi_raft_storage.Controller.Cluster.{same_state, reconcile_member}
use multi_raft_storage.Controller.Cluster.Groups.{
  members_loop, settle_group, reconcile_members, create_group, follow_group, reconcile_group,
  groups_loop, settle_cluster, reconcile_groups,
}
use multi_raft_storage.Controller.Cluster.Writes.{
  counted, AtMostOne, Written, once, part-bind, written_of, reconcile_member_writes,
}

abbrev pub is_left : Option State → Bool
is_left none = true
is_left (some s) = false

abbrev pub itself : Bool → Bool
itself b = b

module _ {S : Type 0} (client : Client S) (domain : String) (c : MultiRaftCluster) where
  members_loop_writes :
      (group : RaftGroup) (g : ℤ) (state : State) (rounds m : ℕ) (s : S) (n : ℕ)
      → AtMostOne is_left n (members_loop (counted client) domain c group g state rounds m (s, n))
  unfolding members_loop AtMostOne Written
  members_loop_writes group g state zero m s n = refl
  members_loop_writes group g state (suc rounds) m s n =
      part-bind written_of is_left
        (reconcile_member (counted client) domain c group g (pos m) (s, n)) _ n
        (reconcile_member_writes client domain c group g (pos m) s n) (λ a s' h. rw h (refl, refl))
        (λ a s' h. rw h (members_loop_writes group g _ rounds (suc m) s' n))

  settle_group_stops :
      (group : RaftGroup) (o : Option State) (s : S) (n : ℕ)
      → is_left o ≡ true
      → Written itself n (settle_group (counted client) domain c group o (s, suc n))
  unfolding settle_group Written
  settle_group_stops group none s n h = (refl, refl)
  settle_group_stops group (some state) s n h = absurd (ground arith)

  settle_group_goes :
      (group : RaftGroup) (o : Option State) (s : S) (n : ℕ)
      → is_left o ≡ false
      → AtMostOne itself n (settle_group (counted client) domain c group o (s, n))
  unfolding settle_group AtMostOne Written
  settle_group_goes group none s n h = absurd (ground arith)
  settle_group_goes group (some state) s n h =
      elim (Bool-cases (same_state group.status.state state)) [
        | inl e ↦ rw e refl
        | inr e ↦ rw e (search once)
      ]

  -- The group's state is only written by a pass over its members that has not written.
  reconcile_members_writes :
      (group : RaftGroup) (g : ℤ) (s : S) (n : ℕ)
      → AtMostOne itself n (reconcile_members (counted client) domain c group g (s, n))
  unfolding reconcile_members
  reconcile_members_writes group g s n =
      part-bind is_left itself
        (members_loop (counted client) domain c group g ready (pos_part (get_num_members c)) 1
          (s, n))
        (settle_group (counted client) domain c group) n
        (members_loop_writes group g ready (pos_part (get_num_members c)) 1 s n)
        (λ o s' h. settle_group_stops group o s' n h) (λ o s' h. settle_group_goes group o s' n h)

  create_group_writes :
      (g : ℤ) (s : S) (n : ℕ)
      → AtMostOne written_of n (create_group (counted client) domain c g (s, n))
  unfolding create_group Written
  create_group_writes g s n = search once

  follow_group_writes :
      (g : ℤ) (found : Result KubeError RaftGroup) (s : S) (n : ℕ)
      → AtMostOne written_of n (follow_group (counted client) domain c g found (s, n))
  unfolding follow_group AtMostOne Written
  follow_group_writes g (err not_found) s n = create_group_writes g s n
  follow_group_writes g (err (other e)) s n = omega arith
  follow_group_writes g (ok group) s n =
      part-bind itself written_of (reconcile_members (counted client) domain c group g (s, n)) _ n
        (reconcile_members_writes group g s n) (λ a s' h. (refl, h)) (λ a s' h. rw h refl)

  groups_loop_writes :
      (state : State) (rounds g : ℕ) (s : S) (n : ℕ)
      → AtMostOne is_left n (groups_loop (counted client) domain c state rounds g (s, n))
  unfolding groups_loop reconcile_group AtMostOne Written
  groups_loop_writes state zero g s n = refl
  groups_loop_writes state (suc rounds) g s n =
      part-bind written_of is_left (reconcile_group (counted client) domain c (pos g) (s, n)) _ n
        (follow_group_writes (pos g) _ _ n) (λ a s' h. rw h (refl, refl))
        (λ a s' h. rw h (groups_loop_writes _ rounds (suc g) s' n))

  settle_cluster_stops :
      (o : Option State) (s : S) (n : ℕ)
      → is_left o ≡ true
      → Written itself n (settle_cluster (counted client) domain c o (s, suc n))
  unfolding settle_cluster Written
  settle_cluster_stops none s n h = (refl, refl)
  settle_cluster_stops (some state) s n h = absurd (ground arith)

  settle_cluster_goes :
      (o : Option State) (s : S) (n : ℕ)
      → is_left o ≡ false
      → AtMostOne itself n (settle_cluster (counted client) domain c o (s, n))
  unfolding settle_cluster AtMostOne Written
  settle_cluster_goes none s n h = absurd (ground arith)
  settle_cluster_goes (some state) s n h = elim (Bool-cases (same_state c.status.state state)) [
    | inl e ↦ rw e refl
    | inr e ↦ rw e (search once)
  ]

  -- From any state of the API, a pass over the groups and their members writes exactly once where it
  -- reports a change, never where it reports none, and at most once where it fails.
  pub reconcile_groups_writes :
      (s : S) (n : ℕ) → AtMostOne itself n (reconcile_groups (counted client) domain c (s, n))
  unfolding reconcile_groups
  reconcile_groups_writes s n =
      part-bind is_left itself
        (groups_loop (counted client) domain c ready (pos_part (get_num_groups c)) 1 (s, n))
        (settle_cluster (counted client) domain c) n
        (groups_loop_writes ready (pos_part (get_num_groups c)) 1 s n)
        (λ o s' h. settle_cluster_stops o s' n h) (λ o s' h. settle_cluster_goes o s' n h)
