-- ===== src/Tests/Node.antt =====
-- The theorems on node/pkg/consensus at concrete inputs.
use multi_raft_storage.Prelude.{
  ℕ, ◌≡◌, refl, ◌≢◌, ◌↔◌, inl, inr, String, true, false, List, [], ◌∷◌, Option, none, some, arith,
  Result, ok, err, nat_eq, nat_eq_iff, nat_Eq, string_Eq, exists, Bool-cases, if◌then◌else◌, ltb,
  length, subst,
}
use multi_raft_storage.Prelude.Assoc.{lookup, insert}
use multi_raft_storage.Prelude.Int.{ℤ, pos}
use multi_raft_storage.Node.Config.{
  RaftConfig, milliseconds, get_heartbeat_period, get_snapshot_entry_threshold,
  get_compaction_retain_entries,
}
use multi_raft_storage.Node.Errors.{
  unavailable, HostError, system_busy, cluster_already_exist, wrap_error,
}
use multi_raft_storage.Node.Streams.{
  StreamId, stream_id_Eq, StreamApi, ProtocolContext, new_context, add_stream, get_stream,
}
use multi_raft_storage.Node.Streams.Laws.{stream_id}
use multi_raft_storage.Node.Streams.Concurrent
use multi_raft_storage.Node.Partition.{
  Partition, new_partition, Bytes, Codec, Host, wrapped, query, prepare, propose,
}
use multi_raft_storage.Node.Partition.Laws.{
  IsLawful, update-prepare, IsRefusal, IsQuiet, propose_failed, query_stale,
}
use multi_raft_storage.Node.Wire.{marshal}
use multi_raft_storage.Node.Wire.Encoding.{wire_codec, proposal_back}
use multi_raft_storage.Node.StateMachine.{Machine, update}
use multi_raft_storage.Node.Events.{Event, leader_updated}
use multi_raft_storage.Node.Protocol.{Protocol, watch, new_state_machine}
use multi_raft_storage.Node.Protocol.Reach
use multi_raft_storage.Node.Protocol.Watchers.{view, unknown, state?, after}
use multi_raft_storage.Node.Group.{
  MemberConfig, member, GroupConfig, HostConfig, get_raft_config, election_rtt, ClusterHost,
  bootstrap,
}
use multi_raft_storage.Node.Group.Laws.{get_raft_config_panics, bootstrap_twice}

-- A stream as the identifiers that its closers remove.
abbrev api : StreamApi
api = record { Stream = List StreamId; nil_stream = []; closer_stream = λ s i. i ∷ s }

-- Inputs are bytes, and are sent as they are unless they are long.
abbrev send_bytes : Bytes → Result String Bytes
send_bytes i = if ltb (length i) 1000 then ok i else err "too long"

abbrev codec : Codec
codec = wire_codec Bytes send_bytes (λ b. ok b) (λ e. "proto: malformed")

codec-IsLawful : IsLawful codec
codec-IsLawful = record {
  input_back = λ i b h. ground (arith, h);
  input_short = λ i b h. ground (arith, h);
  proposal_back = λ p b fits h. proposal_back (λ e. "proto: malformed") p b fits h;
}

-- A state machine that keeps what it was asked, and where the answer goes.
abbrev machine :
    Machine
      (List (Bytes × List StreamId))
      Bytes
      (List StreamId)
      Bytes
      (List StreamId)
      (List (Bytes × List StreamId))
machine = record {
  propose = λ i s st. (i, s) ∷ st;
  query = λ i s st. st;
  snapshot = λ st. ok st;
  recover = λ snap st. (ok tt, snap);
}

abbrev leading : Partition
leading = record { id = 1; member_id = 2; ready = 1; leader = 2; term = 3 }

abbrev registered : ProtocolContext (List StreamId)
registered = record { streams = (stream_id 3 1, stream_id 3 1 ∷ []) ∷ []; sequence_num = 1 }

abbrev empty_context : ProtocolContext (List StreamId)
empty_context = record { streams = []; sequence_num = 0 }

abbrev submitted : Bytes
submitted = 8 ∷ 3 ∷ 16 ∷ 1 ∷ 26 ∷ 1 ∷ 7 ∷ []

update-prepare_example :
    (update api codec machine registered submitted [] ≡ (ok tt, (7 ∷ [], stream_id 3 1 ∷ []) ∷ []))
    × (update api codec machine empty_context submitted [] ≡ (ok tt, (7 ∷ [], []) ∷ []))
unfolding prepare lookup add_stream insert marshal
update-prepare_example =
    update-prepare api codec machine leading (7 ∷ []) [] empty_context registered empty_context
      submitted [] codec-IsLawful (omega arith) refl refl

-- A host whose queue is full.
abbrev busy : Host (ProtocolContext (List StreamId) × ℕ) ℕ
busy = record {
  sync_propose = λ id b s. (err system_busy, s);
  sync_read = λ id q s. (ok tt, s);
  stale_read = λ id q s. (ok tt, s);
  message = λ e. "system is too busy";
}

busy-IsQuiet : IsQuiet busy
busy-IsQuiet = record { quiet = λ id b e s s' refused h. ground arith }

busy_refuses :
    (id : ℕ) (b : Bytes) (m : HostError) (s s' : ProtocolContext (List StreamId) × ℕ)
    → busy.sync_propose id b s ≡ (err m, s')
    → IsRefusal m
busy_refuses id b m s s' h = let same : system_busy ≡ m = ground arith in subst IsRefusal same tt

propose_failed_example : get_stream api 3 1 registered ≡ stream_id 3 1 ∷ []
unfolding propose prepare wrap_error add_stream insert marshal
propose_failed_example =
    propose_failed api codec busy leading (7 ∷ []) [] empty_context registered 0 0 (7 ∷ [])
      (unavailable "system is too busy") busy-IsQuiet (λ b m s prepared h. busy_refuses 1 b m _ s h)
      refl refl refl

-- A key with a value that is nil asks for no linearizable read.
query_nil :
    query busy (("Sync", none) ∷ []) 1 5 (empty_context, 0)
    ≡ wrapped busy (busy.stale_read 1 5 (empty_context, 0))
unfolding query lookup
query_nil = refl

query_stale_example :
    query busy (("sync", some ("true" ∷ [])) ∷ []) 1 5 (empty_context, 0)
    ≡ wrapped busy (busy.stale_read 1 5 (empty_context, 0))
query_stale_example =
    query_stale busy (("sync", some ("true" ∷ [])) ∷ []) 1 5 (empty_context, 0)
      ((refl, (refl, (refl, (refl, tt)))), tt)

abbrev held : Concurrent.Reserved api
held = record { term = 3; sequence_num = 1; stream = [] }

abbrev held_next : Concurrent.Reserved api
held_next = record { term = 3; sequence_num = 2; stream = [] }

abbrev one_reserved : Concurrent.World api
one_reserved = Concurrent.reserve api 0 3 [] (Concurrent.start api)

abbrev two_reserved : Concurrent.World api
two_reserved = Concurrent.reserve api 1 3 [] one_reserved

two_reserved-Reach : Concurrent.Reach api two_reserved
unfolding Concurrent.reserve new_context
two_reserved-Reach =
    Concurrent.next
      (Concurrent.next Concurrent.here (Concurrent.reserves 0 3 [] refl (omega arith) refl))
      (Concurrent.reserves 1 3 [] refl (omega arith) refl)

register_overwrites_nothing_example :
    (lookup (stream_id 3 1) two_reserved.context.streams ≡ none)
    × (◌≢◌ {A = ℕ} 0 1
        → two_reserved.pending 1 ≡ some held_next
        → held.sequence_num ≢ held_next.sequence_num)
unfolding Concurrent.reserve new_context
register_overwrites_nothing_example =
    Concurrent.register_overwrites_nothing api two_reserved 0 1 held held_next two_reserved-Reach
      refl

abbrev node : Protocol
node = record {
  config = record {
    heartbeat_period = none;
    election_timeout = none;
    snapshot_entry_threshold = none;
    compaction_retain_entries = none;
    data_dir = none;
  };
  partitions = (1, leading) ∷ [];
  watchers = (1, 10) ∷ [];
  watcher_id = 1;
  sent = λ c. [];
  closed = λ c. false;
}

abbrev new_leader : Event
new_leader = record {
  timestamp = 9;
  event = leader_updated (record { group_id = 1; member_id = 2 }) 4 3;
}

-- A node that has started a member of group 1.
abbrev started : Protocol
started = new_state_machine 1 2 (Reach.start node.config)

started-Reach : Reach.Reach started
started-Reach = Reach.next (Reach.here node.config) (Reach.creates 1 2 (omega arith) refl)

view-Reach_example :
    view 1 ((after (watch 11 started) (new_leader ∷ [])).sent 11) unknown
    ≡ state? (lookup 1 (after (watch 11 started) (new_leader ∷ [])).partitions)
unfolding lookup insert new_state_machine Reach.start
view-Reach_example =
    Reach.view-Reach started 11 1 (new_partition 1 2) (new_leader ∷ []) started-Reach refl tt refl

abbrev raft : Option ℤ → RaftConfig
raft heartbeat = record {
  heartbeat_period = heartbeat;
  election_timeout = some (pos 1000000000);
  snapshot_entry_threshold = none;
  compaction_retain_entries = none;
  data_dir = none;
}

abbrev two_members : List MemberConfig
two_members =
    record { member_id = 1; host = "a"; port = pos 5679 }
    ∷ record { member_id = 2; host = "b"; port = pos 5679 }
    ∷ []

abbrev first_group : GroupConfig
first_group = record { group_id = 1; member_id = 2; role = member; members = two_members }

-- A heartbeat of half a millisecond.
get_raft_config_panics_example : (get_raft_config (raft (some (pos 500000))) first_group ≡ none) ↔ (
    ((raft (some (pos 500000))).election_timeout ≢ none)
    × (milliseconds (get_heartbeat_period (raft (some (pos 500000)))) ≡ pos 0))
get_raft_config_panics_example = get_raft_config_panics (raft (some (pos 500000))) first_group

-- A host that keeps the groups it has started.
abbrev start_once : ℕ → List ℕ → Result HostError (Unit {0}) × List ℕ
start_once g s = elim (exists (nat_eq g) s) [
  | true ↦ (err cluster_already_exist, s)
  | false ↦ (ok tt, g ∷ s)
]

abbrev cluster_host : ClusterHost (List ℕ)
cluster_host = record {
  start_cluster = λ ts join c s. start_once c.cluster_id s;
  stop_cluster = λ g s. (ok tt, s);
  message = λ e. "error";
}

start_once_twice :
    (g g' : ℕ) (s s' : List ℕ)
    → g ≡ g'
    → start_once g s ≡ (ok tt, s')
    → start_once g' s' ≡ (err cluster_already_exist, s')
start_once_twice g g' s s' same started = elim (Bool-cases (exists (nat_eq g) s)) [
  | inl e ↦ absurd (ground arith)
  | inr e ↦ ground (arith, nat_eq_iff g' g)
]

abbrev first_config : HostConfig
first_config = record {
  node_id = 2;
  cluster_id = 1;
  election_rtt = 5;
  heartbeat_rtt = 1;
  check_quorum = true;
  snapshot_entries = 10000;
  compaction_overhead = 1000;
  is_observer = false;
  is_witness = false;
}

bootstrap_twice_example :
    (bootstrap cluster_host (raft none) first_group [] ≡ some (ok tt, 1 ∷ []))
    × (bootstrap cluster_host (raft none) first_group (1 ∷ []) ≡ some (ok tt, 1 ∷ []))
unfolding get_raft_config get_snapshot_entry_threshold get_compaction_retain_entries election_rtt
bootstrap_twice_example =
    bootstrap_twice cluster_host (raft none) first_group first_group first_config [] (1 ∷ [])
      (record {
        refuses = λ ts ts' j j' c c' s s' same started.
            start_once_twice c.cluster_id c'.cluster_id s s' same started;
      })
      refl refl refl
