-- ===== src/Tests/Controller.antt =====
-- The theorems on the controller at concrete inputs.
use mathlib.Core.List.{Mem, Nodup, Nodup-cons, Nodup-nil, not-mem-nil}
use multi_raft_storage.Prelude.{
  not, ◌&&◌, ◌≤◌, nat_Eq, ◌+◌, ◌*◌, ◌%◌, ◌<◌, ◌≡◌, refl, ◌≢◌, ◌↔◌, ◌⊎◌, inl, String, true, false,
  [], ◌∷◌, none, some, arith, ok, err, str_eq, string_Eq, if◌then◌else◌,
}
use multi_raft_storage.Prelude.Assoc.{lookup}
use multi_raft_storage.Prelude.Int.{int32, pos, pos_part, int64, ◌+ℤ◌}
use multi_raft_storage.Prelude.Text.{show_int}
use multi_raft_storage.Node.Events.{EventKind, leader_updated, snapshot_created}
use multi_raft_storage.Controller.Api.{voting_member, ready, RaftGroupStatus}
use multi_raft_storage.Controller.Placement.{get_num_members, get_num_replicas, pod_ordinal}
use multi_raft_storage.Controller.Placement.Ordinals.{
  pod_ordinal_lem, members_spread, members_collide,
}
use multi_raft_storage.Controller.Labels.{
  raft_partition_key, multi_raft_cluster_key, new_group_annotations, new_group_labels,
}
use multi_raft_storage.Controller.Labels.Laws.{lookup-new_group_annotations}
use multi_raft_storage.Controller.Statuses.{is_partition_statuses_equal}
use multi_raft_storage.Controller.Statuses.Followers.{Mem-contains}
use multi_raft_storage.Controller.Statuses.Laws.{Agree, statuses_equal_iff}
use multi_raft_storage.Controller.Watcher.{update_group, update_member, is_follower_or_leader}
use multi_raft_storage.Controller.Watcher.Groups.{
  IsWell, update_group-IsWell, update_group_keeps, Later, update_group_leader,
}
use multi_raft_storage.Controller.Watcher.History.{updates, Onward, updates_leader}
use multi_raft_storage.Controller.Watcher.Members.{Grows, update_member-Grows}
use multi_raft_storage.Controller.Client.{not_found, other}
use multi_raft_storage.Node.Group.{targets}
use multi_raft_storage.Controller.Cluster.{
  bootstrap_request, follow_pod, start_member, container_version,
}
use multi_raft_storage.Controller.Cluster.Logged.{Call}
use multi_raft_storage.Controller.Cluster.Starts.{start_call, follow_pod_starts}
use multi_raft_storage.Controller.Cluster.Targets.{member_host, lookup-bootstrap_request}
use multi_raft_storage.Controller.Cluster.Groups.{reconcile_groups}
use multi_raft_storage.Controller.Cluster.Writes.{counted, AtMostOne}
use multi_raft_storage.Controller.Cluster.Passes.{itself, reconcile_groups_writes}
use multi_raft_storage.Controller.Pods
use multi_raft_storage.Controller.Pods.Watches
use multi_raft_storage.Controller.Pods.Deletion.{reconcile_pod_deleting}
use multi_raft_storage.Controller.Store
use multi_raft_storage.Controller.Store.Errors.{reconcile_swallows}
use multi_raft_storage.Tests.Fixtures.{
  partitions, turned, cluster, store, sized, crowded, api_server, deleted_pod, running_pod,
  member_status, stopped_member, started_member,
}

pod_ordinal_lem_example : pod_ordinal (cluster none) (pos 2) (pos 3) ≡ pos ((3 * 2 + 2) % 3)
pod_ordinal_lem_example = pod_ordinal_lem (cluster none) 3 3 2 2 sized (omega arith) (omega arith)

members_spread_example :
    (pod_ordinal (cluster none) (pos 1) (pos 1) ≢ pod_ordinal (cluster none) (pos 1) (pos 3))
    × (pos_part (pod_ordinal (cluster none) (pos 1) (pos 1)) < 3)
members_spread_example =
    members_spread (cluster none) 3 3 1 sized (omega arith) 0 2 (omega arith) (omega arith)
      (omega arith) (λ h. absurd (omega arith))

members_collide_example :
    pod_ordinal (cluster (some (pos 2))) (pos 1) (pos 1)
    ≡ pod_ordinal (cluster (some (pos 2))) (pos 1) (pos 4)
members_collide_example =
    members_collide (cluster (some (pos 2))) 3 5 1 crowded (omega arith) 0 (omega arith)

lookup-new_group_annotations_example :
    (lookup "note" (new_group_annotations (cluster none) (pos 1)) ≡ (
      if str_eq raft_partition_key "note"
      then some (show_int (pos 1))
      else if str_eq multi_raft_cluster_key "note"
      then some "raft"
      else lookup "note" (cluster none).meta.labels))
    × (new_group_annotations (cluster none) (pos 1) ≡ new_group_labels (cluster none) (pos 1))
unfolding lookup
lookup-new_group_annotations_example =
    lookup-new_group_annotations (cluster none) (pos 1) "note" (refl, tt)

followers-Nodup : Nodup {A = String} ("b" ∷ "c" ∷ [])
followers-Nodup = Nodup-cons.1 (
  λ m. (let k = Mem-contains ("c" ∷ []) "b" m in ground arith),
  Nodup-cons.1 ((λ m. absurd (not-mem-nil m)), Nodup-nil),
)

statuses_equal_iff_example :
    (is_partition_statuses_equal partitions turned ≡ true) ↔ Agree partitions turned
statuses_equal_iff_example =
    statuses_equal_iff 1 partitions turned (refl, tt) (refl, tt) (followers-Nodup, tt)

abbrev group_status : RaftGroupStatus
group_status = record {
  state = ready;
  term = some 2;
  leader = some "raft-1-1";
  followers = "raft-1-2" ∷ [];
}

abbrev second_leads : EventKind
second_leads = leader_updated (record { group_id = 1; member_id = 2 }) 3 2

group_status-IsWell : IsWell group_status
group_status-IsWell = record {
  distinct = (refl, tt);
  apart = λ l h. (let e : "raft-1-1" ≡ l = ground arith in rw (← e) refl);
}

update_group-IsWell_example : IsWell (update_group "raft" second_leads group_status).0
update_group-IsWell_example =
    update_group-IsWell "raft" second_leads group_status group_status-IsWell

update_group_keeps_example :
    is_follower_or_leader "raft-1-1" (update_group "raft" second_leads group_status).0 ≡ true
update_group_keeps_example =
    update_group_keeps "raft" second_leads group_status "raft-1-1" (inl refl)

update_group_leader_example :
    ((update_group "raft" second_leads group_status).0.leader ≡ some "raft-1-1")
    ⊎ Later (some 2) (update_group "raft" second_leads group_status).0.term
update_group_leader_example = update_group_leader "raft" second_leads group_status "raft-1-1" refl

updates_leader_example :
    (((updates "raft" (second_leads ∷ second_leads ∷ []) group_status).leader ≡ some "raft-1-1")
      ⊎ Later (some 2) (updates "raft" (second_leads ∷ second_leads ∷ []) group_status).term)
    × Onward (some 2) (updates "raft" (second_leads ∷ second_leads ∷ []) group_status).term
    × IsWell (updates "raft" (second_leads ∷ second_leads ∷ []) group_status)
updates_leader_example =
    updates_leader "raft" (second_leads ∷ second_leads ∷ []) group_status "raft-1-1"
      group_status-IsWell refl

lookup-bootstrap_request_example :
    lookup 3 (
      targets
        (bootstrap_request "cluster.local" (cluster none) (pos 1) (pos 2) voting_member).members)
    ≡ some (member_host "cluster.local" (cluster none) (pos 1) 3)
unfolding get_num_members get_num_replicas int64 ◌+ℤ◌
lookup-bootstrap_request_example =
    lookup-bootstrap_request "cluster.local" (cluster none) (pos 1) (pos 2) voting_member 3
      (omega arith) (omega arith) (omega arith)

abbrev snapshot : EventKind
snapshot = snapshot_created (record { group_id = 1; member_id = 2 }) 20

update_member-Grows_example :
    Grows (some 2) (update_member "raft" 5 snapshot member_status).0.term
    × Grows (some 10) (update_member "raft" 5 snapshot member_status).0.last_snapshot_index
    × ((update_member "raft" 5 snapshot member_status).0.version ≡ some (pos 1))
    × ((update_member "raft" 5 snapshot member_status).0.pod_ref ≡ none)
update_member-Grows_example = update_member-Grows "raft" 5 snapshot member_status

reconcile_groups_writes_example :
    AtMostOne itself 0 (
      reconcile_groups (counted (api_server (err not_found))) "cluster.local" (cluster none) (0, 0))
reconcile_groups_writes_example =
    reconcile_groups_writes (api_server (err not_found)) "cluster.local" (cluster none) 0 0

reconcile_swallows_example :
    Store.reconcile (api_server (err (other "timeout"))) "default" "raft" 0 ≡ (ok false, 0)
reconcile_swallows_example =
    reconcile_swallows (api_server (err (other "timeout"))) "default" "raft" store "timeout" 0 0 0
      refl refl

reconcile_pod_deleting_example :
    (Pods.reconcile_pod (api_server (err not_found)) "cluster.local" deleted_pod ([], 0) ≡ (
      ok tt,
      (
        Pods.unwatch
            (Pods.pod_address (api_server (err not_found)) "cluster.local" "raft" deleted_pod)
            [],
        1,
      ),
    ))
    × (lookup (Pods.pod_address (api_server (err not_found)) "cluster.local" "raft" deleted_pod) (
          Pods.unwatch
            (Pods.pod_address (api_server (err not_found)) "cluster.local" "raft" deleted_pod)
            [])
        ≢ some false)
    × ((f : String)
        → Pods.has_finalizer ("other" ∷ []) f ≡ (
            not (str_eq f Pods.multi_raft_pod_finalizer)
            && Pods.has_finalizer deleted_pod.finalizers f))
unfolding lookup
reconcile_pod_deleting_example =
    reconcile_pod_deleting (api_server (err not_found)) "cluster.local" "raft" deleted_pod [] 0 refl
      refl refl

abbrev one_watch : Watches.World
one_watch = Watches.begin "raft-0:5678" Watches.start

at_most_one_watch_example :
    (one_watch.running "raft-0:5678" ≡ Watches.entry (lookup "raft-0:5678" one_watch.table))
    × (one_watch.running "raft-0:5678" ≤ 1)
at_most_one_watch_example =
    Watches.at_most_one_watch one_watch "raft-0:5678"
      (Watches.next Watches.here (Watches.begins "raft-0:5678" refl))

abbrev running_watch : Pods.Watches
running_watch = ("raft-0:5678", false) ∷ []

watch_lost_example :
    (Pods.watch "raft-0:5678" (Pods.unwatch "raft-0:5678" running_watch)
      ≡ (Pods.unwatch "raft-0:5678" running_watch, false))
    × (lookup "raft-0:5678" (
          Pods.finish "raft-0:5678"
            (Pods.watch "raft-0:5678" (Pods.unwatch "raft-0:5678" running_watch)).0)
        ≡ none)
unfolding lookup
watch_lost_example = Watches.watch_lost "raft-0:5678" running_watch refl

abbrev start_of_member : Call
start_of_member =
    start_call (api_server (err not_found)) "cluster.local" (cluster none) (pos 1) (pos 1)
      running_pod stopped_member

follow_pod_starts_example : Mem start_of_member (start_of_member ∷ [])
unfolding follow_pod start_member container_version int32 ◌+ℤ◌
follow_pod_starts_example =
    follow_pod_starts (api_server (err not_found)) "cluster.local" (cluster none) (pos 1) (pos 1)
      running_pod stopped_member 0 [] (start_of_member ∷ []) started_member (pos 1) refl refl
      (λ e. absurd (ground arith))
