-- ===== src/Node/Config.antt =====
-- node/pkg/consensus/config.go: the configuration and its defaults. A pointer field is an `Option`,
-- a `time.Duration` an integer of nanoseconds.
use multi_raft_storage.Prelude.{ℕ, String, Option, none, some, ◌*◌}
use multi_raft_storage.Prelude.Int.{ℤ, pos, quot}

abbrev pub Duration : Type 0
Duration = ℤ

-- `Duration.Milliseconds`
abbrev pub milliseconds : Duration → ℤ
milliseconds d = quot d (pos 1000000)

abbrev pub default_data_dir : String
default_data_dir = "/var/lib/atomix/data"

abbrev pub default_snapshot_entry_threshold : ℕ
default_snapshot_entry_threshold = 10000

abbrev pub default_compaction_retain_entries : ℕ
default_compaction_retain_entries = 1000

abbrev pub default_heartbeat_period : Duration
default_heartbeat_period = pos (200 * 1000000)

pub record ServerConfig : Type 0 where
  pub read_buffer_size : Option ℤ
  pub write_buffer_size : Option ℤ
  pub max_recv_msg_size : Option ℤ
  pub max_send_msg_size : Option ℤ
  pub num_stream_workers : Option ℕ
  pub max_concurrent_streams : Option ℕ

pub record RaftConfig : Type 0 where
  pub heartbeat_period : Option Duration
  pub election_timeout : Option Duration
  pub snapshot_entry_threshold : Option ℕ
  pub compaction_retain_entries : Option ℕ
  pub data_dir : Option String

pub record Config : Type 0 where
  pub server : ServerConfig
  pub raft : RaftConfig

-- `if p != nil { return *p }; return default`
abbrev pub or_default {ℓ} : {A : Type ℓ} → Option A → A → A
or_default none d = d
or_default (some a) d = a

unfoldable pub get_data_dir : RaftConfig → String
get_data_dir c = or_default c.data_dir default_data_dir

unfoldable pub get_snapshot_entry_threshold : RaftConfig → ℕ
get_snapshot_entry_threshold c =
    or_default c.snapshot_entry_threshold default_snapshot_entry_threshold

unfoldable pub get_compaction_retain_entries : RaftConfig → ℕ
get_compaction_retain_entries c =
    or_default c.compaction_retain_entries default_compaction_retain_entries

unfoldable pub get_heartbeat_period : RaftConfig → Duration
get_heartbeat_period c = or_default c.heartbeat_period default_heartbeat_period
