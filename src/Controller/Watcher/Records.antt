-- ===== src/Controller/Watcher/Records.antt =====
-- controller/pkg/controller/consensus/v1beta1/watcher.go: how the events that a watch receives are
-- written into the stored statuses, and the watch's loop. `retry` is `backoff.Retry`, which calls an
-- operation again while it fails, and gives up at some time.
use multi_raft_storage.Prelude.{
  ℕ, zero, suc, String, Bool, true, false, Option, none, some, Result, ok, err, Exec, pure, fail,
  attempt, ◌>>=◌, ◌>>◌,
}
use multi_raft_storage.Node.Events.{
  Event, EventKind, MemberEvent, member_ready, membership_changed, leader_updated,
  send_snapshot_started, send_snapshot_completed, send_snapshot_aborted, snapshot_received,
  snapshot_recovered, snapshot_created, snapshot_compacted, log_compacted, logdb_compacted,
  connection_established, connection_failed,
}
use multi_raft_storage.Controller.Api.{
  leader, RaftGroup, RaftMember, RaftGroupStatus, RaftMemberStatus,
}
use multi_raft_storage.Controller.Client.{KubeError, not_found, Client}
use multi_raft_storage.Controller.Watcher.{group_name, member_name, update_group, update_member}

-- The member that an event is about; events of connections are about none.
unfoldable pub member_of : EventKind → Option MemberEvent
member_of (member_ready m) = some m
member_of (leader_updated m term l) = some m
member_of (membership_changed m) = some m
member_of (send_snapshot_started m i to) = some m
member_of (send_snapshot_completed m i to) = some m
member_of (send_snapshot_aborted m i to) = some m
member_of (snapshot_received m i from) = some m
member_of (snapshot_recovered m i) = some m
member_of (snapshot_created m i) = some m
member_of (snapshot_compacted m i) = some m
member_of (log_compacted m i) = some m
member_of (logdb_compacted m i) = some m
member_of (connection_established c) = none
member_of (connection_failed c) = none

-- The reasons of the recorded events, once a status is written.
unfoldable pub member_reason : EventKind → RaftMemberStatus → Option String
member_reason (member_ready m) s = some "StateChanged"
member_reason (leader_updated m term l) s = elim s.role [
  | some leader ↦ some "ElectedLeader"
  | _ ↦ none
]
member_reason (membership_changed m) s = some "MembershipChanged"
member_reason (send_snapshot_started m i to) s = some "SendSnapshotStared"
member_reason (send_snapshot_completed m i to) s = some "SendSnapshotCompleted"
member_reason (send_snapshot_aborted m i to) s = some "SendSnapshotAborted"
member_reason (snapshot_received m i from) s = some "SnapshotReceived"
member_reason (snapshot_recovered m i) s = some "SnapshotRecovered"
member_reason (snapshot_created m i) s = some "SnapshotCreated"
member_reason (snapshot_compacted m i) s = some "SnapshotCompacted"
member_reason (log_compacted m i) s = some "LogCompacted"
member_reason (logdb_compacted m i) s = some "LogCompacted"
member_reason _ s = none

unfoldable pub group_reason : EventKind → RaftGroupStatus → Option String
group_reason (leader_updated m term l) s = elim s.leader [
  | none ↦ some "TermChanged"
  | some name ↦ some "LeaderChanged"
]
group_reason _ s = none

-- What `Recv` of the stream returns: an event, its end, the error of a canceled call, another error.
pub data Received : Type 0 where
  received : Event → Received
  eof canceled failed : Received

module _ {S : Type 0} (client : Client S) (retry : Exec S KubeError (Unit {0}) → S → S) where
  abbrev pub note : Option String → Exec S KubeError (Unit {0})
  note none = pure tt
  note (some reason) = do attempt (client.record_event reason); pure tt

  -- After the call that writes a status: a status that is gone is no error.
  abbrev pub written : Option String → Result KubeError (Unit {0}) → Exec S KubeError (Unit {0})
  written reason (ok _) = note reason
  written reason (err not_found) = pure tt
  written reason (err e) = fail e

  abbrev pub store_group :
      RaftGroup
      → (RaftGroupStatus → Option String)
      → RaftGroupStatus × Bool
      → Exec S KubeError (Unit {0})
  store_group group reason (status, false) = pure tt
  store_group group reason (status, true) = do
    outcome ← attempt (client.update_group_status (record group { status = status }))
    written (reason status) outcome

  abbrev pub found_group :
      (RaftGroupStatus → RaftGroupStatus × Bool)
      → (RaftGroupStatus → Option String)
      → Result KubeError RaftGroup
      → Exec S KubeError (Unit {0})
  found_group updater reason (err not_found) = pure tt
  found_group updater reason (err e) = fail e
  found_group updater reason (ok group) = store_group group reason (updater group.status)

  unfoldable pub try_record_group_event :
      String
      → String
      → (RaftGroupStatus → RaftGroupStatus × Bool)
      → (RaftGroupStatus → Option String)
      → Exec S KubeError (Unit {0})
  try_record_group_event ns name updater reason = do
    found ← attempt (client.get_group ns name)
    found_group updater reason found

  abbrev pub store_member :
      RaftMember
      → (RaftMemberStatus → Option String)
      → RaftMemberStatus × Bool
      → Exec S KubeError (Unit {0})
  store_member member reason (status, false) = pure tt
  store_member member reason (status, true) = do
    outcome ← attempt (client.update_member_status (record member { status = status }))
    written (reason status) outcome

  abbrev pub found_member :
      (RaftMemberStatus → RaftMemberStatus × Bool)
      → (RaftMemberStatus → Option String)
      → Result KubeError RaftMember
      → Exec S KubeError (Unit {0})
  found_member updater reason (err not_found) = pure tt
  found_member updater reason (err e) = fail e
  found_member updater reason (ok member) = store_member member reason (updater member.status)

  unfoldable pub try_record_member_event :
      String
      → String
      → (RaftMemberStatus → RaftMemberStatus × Bool)
      → (RaftMemberStatus → Option String)
      → Exec S KubeError (Unit {0})
  try_record_member_event ns name updater reason = do
    found ← attempt (client.get_member ns name)
    found_member updater reason found

  -- The store of the pod, by its namespace and name.
  module _ (ns store : String) where
    unfoldable pub record_group_event : ℕ → EventKind → S → S
    unfolding try_record_group_event group_name update_group group_reason
    record_group_event g e =
        retry
          (try_record_group_event ns (group_name store g) (update_group store e) (group_reason e))

    unfoldable pub record_member_event : MemberEvent → ℕ → EventKind → S → S
    unfolding try_record_member_event member_name update_member member_reason
    record_member_event m now e = retry (
        try_record_member_event ns (member_name store m.group_id m.member_id)
          (update_member store now e) (member_reason e))

    abbrev pub handle_member : ℕ → EventKind → Option MemberEvent → S → S
    handle_member now e none s = s
    handle_member now e (some m) s = record_member_event m now e s

    abbrev pub handle_group : EventKind → S → S
    handle_group (member_ready m) s = record_group_event m.group_id (member_ready m) s
    handle_group (leader_updated m term l) s =
        record_group_event m.group_id (leader_updated m term l) s
    handle_group _ s = s

    -- The `switch` over an event: first the member, then for two kinds the group.
    unfoldable pub handle : Event → S → S
    unfolding member_of record_member_event record_group_event
    handle e s = handle_group e.event (handle_member e.timestamp e.event (member_of e.event) s)

    -- The loop of a watch, at most so many rounds: whether it has returned, and the state it comes to.
    -- An error that is neither the end nor a cancellation is logged, and the loop goes on.
    unfoldable pub watch_loop : (ℕ → Received) → ℕ → ℕ → S → Bool × S
    unfolding handle
    watch_loop stream zero k s = (false, s)
    watch_loop stream (suc n) k s = elim (stream k) [
      | received e ↦ watch_loop stream n (suc k) (handle e s)
      | eof ↦ (true, s)
      | canceled ↦ (true, s)
      | failed ↦ watch_loop stream n (suc k) s
    ]
