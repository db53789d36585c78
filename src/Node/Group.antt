-- ===== src/Node/Group.antt =====
-- node/pkg/consensus/protocol.go: starting and stopping the member of a group (`Bootstrap`, `Join`,
-- `Leave`), and the configuration that it runs with.
pub mod Laws
use multi_raft_storage.Prelude.{
  ℕ, zero, String, Bool, true, false, List, [], ◌∷◌, Option, none, some, Result, ok, err, nat_Eq,
}
use multi_raft_storage.Prelude.Assoc.{insert}
use multi_raft_storage.Prelude.Int.{ℤ, pos, negsuc, quot, u64, uint64}
use multi_raft_storage.Prelude.Text.{◌⊕◌, show_int}
use multi_raft_storage.Node.Config.{
  Duration, milliseconds, RaftConfig, get_heartbeat_period, get_snapshot_entry_threshold,
  get_compaction_retain_entries,
}
use multi_raft_storage.Node.Errors.{HostError, cluster_already_exist, Error, raw, wrap_error}

pub record MemberConfig : Type 0 where
  pub member_id : ℕ
  pub host : String
  pub port : ℤ

pub data MemberRole : Type 0 where
  unknown member observer witness : MemberRole

pub record GroupConfig : Type 0 where
  pub group_id : ℕ
  pub member_id : ℕ
  pub role : MemberRole
  pub members : List MemberConfig

-- `raftconfig.Config`
pub record HostConfig : Type 0 where
  pub node_id : ℕ
  pub cluster_id : ℕ
  pub election_rtt : ℕ
  pub heartbeat_rtt : ℕ
  pub check_quorum : Bool
  pub snapshot_entries : ℕ
  pub compaction_overhead : ℕ
  pub is_observer : Bool
  pub is_witness : Bool

-- Integer division panics on a zero divisor.
abbrev pub divide : ℤ → ℤ → Option ℤ
divide a (pos zero) = none
divide a b = some (quot a b)

-- The election timeout in heartbeats; `none` is the panic of the division.
unfoldable pub election_rtt : RaftConfig → Option ℕ
unfolding get_heartbeat_period
election_rtt c = elim c.election_timeout [
  | none ↦ some 10
  | some t ↦ elim (divide (milliseconds t) (milliseconds (get_heartbeat_period c))) [
    | none ↦ none
    | some n ↦ some (uint64 n)
  ]
]

abbrev pub is_observer : MemberRole → Bool
is_observer observer = true
is_observer _ = false

abbrev pub is_witness : MemberRole → Bool
is_witness witness = true
is_witness _ = false

abbrev host_config : RaftConfig → GroupConfig → ℕ → HostConfig
host_config c g rtt = record {
  node_id = g.member_id;
  cluster_id = g.group_id;
  election_rtt = rtt;
  heartbeat_rtt = 1;
  check_quorum = true;
  snapshot_entries = get_snapshot_entry_threshold c;
  compaction_overhead = get_compaction_retain_entries c;
  is_observer = is_observer g.role;
  is_witness = is_witness g.role;
}

-- `getRaftConfig`
unfoldable pub get_raft_config : RaftConfig → GroupConfig → Option HostConfig
unfolding election_rtt get_snapshot_entry_threshold get_compaction_retain_entries
get_raft_config c g = elim (election_rtt c) [ none ↦ none | some rtt ↦ some (host_config c g rtt) ]

abbrev pub address : MemberConfig → String
address m = m.host ⊕ ":" ⊕ show_int m.port

-- The loop that fills the map of members: a later member replaces an earlier one of its number.
unfoldable pub targets_from : List (ℕ × String) → List MemberConfig → List (ℕ × String)
targets_from acc [] = acc
targets_from acc (m ∷ ms) = targets_from (insert m.member_id (address m) acc) ms

unfoldable pub targets : List MemberConfig → List (ℕ × String)
unfolding targets_from
targets ms = targets_from [] ms

-- The group operations of dragonboat's `NodeHost`.
pub record ClusterHost (S : Type 0) : Type 0 where
  pub start_cluster : List (ℕ × String) → Bool → HostConfig → S → Result HostError (Unit {0}) × S
  pub stop_cluster : ℕ → S → Result HostError (Unit {0}) × S
  pub message : HostError → String

module _ {S : Type 0} (host : ClusterHost S) where
  -- A cluster that is there already is a success.
  abbrev pub accept : Result HostError (Unit {0}) × S → Result Error (Unit {0}) × S
  accept (ok _, s) = (ok tt, s)
  accept (err cluster_already_exist, s) = (ok tt, s)
  accept (err e, s) = (err (wrap_error host.message e), s)

  -- `none` is a panic.
  abbrev start : Bool → RaftConfig → GroupConfig → S → Option (Result Error (Unit {0}) × S)
  start join c g s = elim (get_raft_config c g) [
    | none ↦ none
    | some rc ↦ some (accept (host.start_cluster (targets g.members) join rc s))
  ]

  unfoldable pub bootstrap : RaftConfig → GroupConfig → S → Option (Result Error (Unit {0}) × S)
  unfolding get_raft_config targets
  bootstrap c g s = start false c g s

  unfoldable pub join : RaftConfig → GroupConfig → S → Option (Result Error (Unit {0}) × S)
  unfolding get_raft_config targets
  join c g s = start true c g s

  -- `Leave` passes the host's error on as it is.
  unfoldable pub leave : ℕ → S → Result Error (Unit {0}) × S
  leave group_id s = elim (host.stop_cluster group_id s).0 [
    | ok _ ↦ (ok tt, (host.stop_cluster group_id s).1)
    | err e ↦ (err (raw e), (host.stop_cluster group_id s).1)
  ]
