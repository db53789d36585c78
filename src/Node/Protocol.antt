-- ===== src/Node/Protocol.antt =====
-- node/pkg/consensus/protocol.go: the partitions and the watchers of a node. A channel is a number,
-- and `sent` holds what has been sent on each. A send takes no time here; Node/Server/Channels has the
-- sends that wait for room.
pub mod Watchers
pub mod Reach
use multi_raft_storage.Prelude.{
  ℕ, ◌+◌, Bool, true, List, [], ◌∷◌, ◌++◌, map, Option, none, some, ltb, nat_eq, nat_Eq,
  if◌then◌else◌,
}
use multi_raft_storage.Prelude.Assoc.{lookup, insert, delete}
use multi_raft_storage.Prelude.Int.{u32}
use multi_raft_storage.Node.Config.{RaftConfig}
use multi_raft_storage.Node.Events.{
  Event, EventKind, MemberEvent, member_ready, leader_updated, Callback, to_event, at_time,
}
use multi_raft_storage.Node.Partition.{
  Partition, new_partition, set_ready, set_leader, get_leader, get_ready,
}

pub record Protocol : Type 0 where
  pub config : RaftConfig
  pub partitions : List (ℕ × Partition)
  pub watchers : List (ℕ × ℕ)
  pub watcher_id : ℕ
  pub sent : ℕ → List Event
  pub closed : ℕ → Bool

-- `if partition, ok := n.partitions[id]; ok { … }`
abbrev pub change : (Partition → Partition) → ℕ → List (ℕ × Partition) → List (ℕ × Partition)
change f id ps = elim (lookup id ps) [ none ↦ ps | some p ↦ insert id (f p) ps ]

-- the `switch` of `publish`
unfoldable pub observe : EventKind → List (ℕ × Partition) → List (ℕ × Partition)
observe (member_ready m) ps = change set_ready m.group_id ps
observe (leader_updated m term leader) ps = change (set_leader term leader) m.group_id ps
observe _ ps = ps

unfoldable pub send : ℕ → Event → (ℕ → List Event) → ℕ → List Event
send c e f d = if nat_eq c d then f d ++ e ∷ [] else f d

unfoldable pub broadcast : List (ℕ × ℕ) → Event → (ℕ → List Event) → ℕ → List Event
broadcast [] e f = f
broadcast ((i, c) ∷ ws) e f = broadcast ws e (send c e f)

unfoldable pub publish : Event → Protocol → Protocol
unfolding observe broadcast send
publish e n = record n {
  partitions = observe e.event n.partitions;
  sent = broadcast n.watchers e n.sent;
}

-- A callback of the event listener.
unfoldable pub notify : ℕ → Callback → Protocol → Protocol
unfolding publish to_event
notify now call n = elim (to_event now call) [ none ↦ n | some e ↦ publish e n ]

-- What `Watch` sends for one partition: the leader if a term is known, and readiness. The events
-- carry the zero time.
unfoldable pub replay : Partition → List Event
unfolding get_leader get_ready
replay p =
    let (term, leader) = get_leader p in
    let member : MemberEvent = record { group_id = u32 p.id; member_id = p.member_id } in
    (if ltb 0 term then at_time 0 (leader_updated member term leader) ∷ [] else [])
    ++ (if get_ready p then at_time 0 (member_ready member) ∷ [] else [])

unfoldable pub replay_all : List (ℕ × Partition) → List Event
unfolding replay
replay_all [] = []
replay_all ((i, p) ∷ ps) = replay p ++ replay_all ps

-- `Watch`: the next identifier, the registration, and the replay of the current state.
unfoldable pub watch : ℕ → Protocol → Protocol
unfolding replay_all
watch c n = record n {
  watcher_id = n.watcher_id + 1;
  watchers = insert (n.watcher_id + 1) c n.watchers;
  sent = λ d. if nat_eq c d then n.sent d ++ replay_all n.partitions else n.sent d;
}

-- The end of a watch, when its context is done.
unfoldable pub unwatch : ℕ → ℕ → Protocol → Protocol
unwatch id c n = record n {
  watchers = delete id n.watchers;
  closed = λ d. if nat_eq c d then true else n.closed d;
}

unfoldable pub get_partition : ℕ → Protocol → Option Partition
get_partition id n = lookup id n.partitions

unfoldable pub get_partitions : Protocol → List Partition
get_partitions n = map (λ e. e.1) n.partitions

-- `newStateMachine`: a new partition under the group's identifier.
unfoldable pub new_state_machine : ℕ → ℕ → Protocol → Protocol
unfolding new_partition
new_state_machine cluster_id node_id n = record n {
  partitions = insert cluster_id (new_partition cluster_id (u32 node_id)) n.partitions;
}
