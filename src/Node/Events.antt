-- ===== src/Node/Events.antt =====
-- node/pkg/consensus/events.go: dragonboat's callbacks as events. `now` is `time.Now()`; identifiers
-- are cut to 32 bits by the conversions of the source, terms and indexes have 64.
use multi_raft_storage.Prelude.{ℕ, String, Bool, Option, none, some}
use multi_raft_storage.Prelude.Int.{u32, u64}

pub record MemberEvent : Type 0 where
  pub group_id : ℕ
  pub member_id : ℕ

pub record ConnectionInfo : Type 0 where
  pub address : String
  pub snapshot : Bool

-- The `oneof event` of protocol.proto: a member event's further fields are the term and the leader,
-- or the index and the other member of a snapshot.
pub data EventKind : Type 0 where
  member_ready membership_changed : MemberEvent → EventKind
  leader_updated : MemberEvent → ℕ → ℕ → EventKind
  send_snapshot_started send_snapshot_completed send_snapshot_aborted :
      MemberEvent → ℕ → ℕ → EventKind
  snapshot_received : MemberEvent → ℕ → ℕ → EventKind
  snapshot_recovered snapshot_created snapshot_compacted : MemberEvent → ℕ → EventKind
  log_compacted logdb_compacted : MemberEvent → ℕ → EventKind
  connection_established connection_failed : ConnectionInfo → EventKind

-- A timestamp of 0 is Go's zero time.
pub record Event : Type 0 where
  pub timestamp : ℕ
  pub event : EventKind

-- What dragonboat's raftio package hands to a listener.
pub record LeaderInfo : Type 0 where
  pub cluster_id : ℕ
  pub node_id : ℕ
  pub term : ℕ
  pub leader_id : ℕ

pub record NodeInfo : Type 0 where
  pub cluster_id : ℕ
  pub node_id : ℕ

pub record SnapshotInfo : Type 0 where
  pub cluster_id : ℕ
  pub node_id : ℕ
  pub from : ℕ
  pub index : ℕ

pub record EntryInfo : Type 0 where
  pub cluster_id : ℕ
  pub node_id : ℕ
  pub index : ℕ

abbrev pub member_of : ℕ → ℕ → MemberEvent
member_of cluster_id node_id = record { group_id = u32 cluster_id; member_id = u32 node_id }

abbrev pub at_time : ℕ → EventKind → Event
at_time now e = record { timestamp = now; event = e }

module _ (now : ℕ) where
  unfoldable pub on_leader_updated : LeaderInfo → Event
  on_leader_updated i =
      at_time now (leader_updated (member_of i.cluster_id i.node_id) (u64 i.term) (u32 i.leader_id))

  unfoldable pub on_node_ready : NodeInfo → Event
  on_node_ready i = at_time now (member_ready (member_of i.cluster_id i.node_id))

  unfoldable pub on_membership_changed : NodeInfo → Event
  on_membership_changed i = at_time now (membership_changed (member_of i.cluster_id i.node_id))

  unfoldable pub on_connection_established : ConnectionInfo → Event
  on_connection_established i = at_time now (connection_established i)

  unfoldable pub on_connection_failed : ConnectionInfo → Event
  on_connection_failed i = at_time now (connection_failed i)

  unfoldable pub on_send_snapshot_started : SnapshotInfo → Event
  on_send_snapshot_started i =
      at_time now
        (send_snapshot_started (member_of i.cluster_id i.node_id) (u64 i.index) (u32 i.node_id))

  unfoldable pub on_send_snapshot_completed : SnapshotInfo → Event
  on_send_snapshot_completed i =
      at_time now
        (send_snapshot_completed (member_of i.cluster_id i.node_id) (u64 i.index) (u32 i.node_id))

  unfoldable pub on_send_snapshot_aborted : SnapshotInfo → Event
  on_send_snapshot_aborted i =
      at_time now
        (send_snapshot_aborted (member_of i.cluster_id i.node_id) (u64 i.index) (u32 i.node_id))

  unfoldable pub on_snapshot_received : SnapshotInfo → Event
  on_snapshot_received i =
      at_time now (snapshot_received (member_of i.cluster_id i.node_id) (u64 i.index) (u32 i.from))

  unfoldable pub on_snapshot_recovered : SnapshotInfo → Event
  on_snapshot_recovered i =
      at_time now (snapshot_recovered (member_of i.cluster_id i.node_id) (u64 i.index))

  unfoldable pub on_snapshot_created : SnapshotInfo → Event
  on_snapshot_created i =
      at_time now (snapshot_created (member_of i.cluster_id i.node_id) (u64 i.index))

  unfoldable pub on_snapshot_compacted : SnapshotInfo → Event
  on_snapshot_compacted i =
      at_time now (snapshot_compacted (member_of i.cluster_id i.node_id) (u64 i.index))

  unfoldable pub on_log_compacted : EntryInfo → Event
  on_log_compacted i = at_time now (log_compacted (member_of i.cluster_id i.node_id) (u64 i.index))

  unfoldable pub on_logdb_compacted : EntryInfo → Event
  on_logdb_compacted i =
      at_time now (logdb_compacted (member_of i.cluster_id i.node_id) (u64 i.index))

-- The methods of `raftio.IRaftEventListener` and `ISystemEventListener`.
pub data Callback : Type 0 where
  leader_updated_call : LeaderInfo → Callback
  node_host_shutting_down : Callback
  node_unloaded node_ready_call membership_changed_call : NodeInfo → Callback
  connection_established_call connection_failed_call : ConnectionInfo → Callback
  send_snapshot_started_call send_snapshot_completed_call send_snapshot_aborted_call :
      SnapshotInfo → Callback
  snapshot_received_call snapshot_recovered_call snapshot_created_call snapshot_compacted_call :
      SnapshotInfo → Callback
  log_compacted_call logdb_compacted_call : EntryInfo → Callback

-- The event that a callback publishes; two of them publish nothing.
unfoldable pub to_event : ℕ → Callback → Option Event
to_event now (leader_updated_call i) = some (on_leader_updated now i)
to_event now node_host_shutting_down = none
to_event now (node_unloaded i) = none
to_event now (node_ready_call i) = some (on_node_ready now i)
to_event now (membership_changed_call i) = some (on_membership_changed now i)
to_event now (connection_established_call i) = some (on_connection_established now i)
to_event now (connection_failed_call i) = some (on_connection_failed now i)
to_event now (send_snapshot_started_call i) = some (on_send_snapshot_started now i)
to_event now (send_snapshot_completed_call i) = some (on_send_snapshot_completed now i)
to_event now (send_snapshot_aborted_call i) = some (on_send_snapshot_aborted now i)
to_event now (snapshot_received_call i) = some (on_snapshot_received now i)
to_event now (snapshot_recovered_call i) = some (on_snapshot_recovered now i)
to_event now (snapshot_created_call i) = some (on_snapshot_created now i)
to_event now (snapshot_compacted_call i) = some (on_snapshot_compacted now i)
to_event now (log_compacted_call i) = some (on_log_compacted now i)
to_event now (logdb_compacted_call i) = some (on_logdb_compacted now i)
