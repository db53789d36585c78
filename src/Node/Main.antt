-- ===== src/Node/Main.antt =====
-- node/cmd/atomix-consensus-node/main.go and `NewProtocol` of node/pkg/consensus/protocol.go: from the
-- command line and the configuration file to a node that is to be started. What the runtime's node and
-- dragonboat do with it is left out.
use multi_raft_storage.Prelude.{ℕ, String, List, [], ◌∷◌, ◌++◌, Option, none, some, Result, ok, err}
use multi_raft_storage.Prelude.Int.{ℤ, pos, uint64}
use multi_raft_storage.Prelude.Text.{◌⊕◌, show_int}
use multi_raft_storage.Node.Config.{
  Config, ServerConfig, RaftConfig, milliseconds, get_data_dir, get_heartbeat_period,
}
use multi_raft_storage.Node.Options.{SetOption, apply, with_host, with_port}

-- The flags of the command.
pub record Flags : Type 0 where
  pub config : String
  pub api_host : String
  pub api_port : ℤ
  pub raft_host : String
  pub raft_port : ℤ

-- `raftconfig.NodeHostConfig`, without the listeners.
pub record NodeHostConfig : Type 0 where
  pub wal_dir : String
  pub node_host_dir : String
  pub rtt_millisecond : ℕ
  pub raft_address : String

-- The options of the gRPC server.
pub data ServerOption : Type 0 where
  read_buffer write_buffer max_send_msg max_recv_msg : ℤ → ServerOption
  stream_workers concurrent_streams : ℕ → ServerOption

-- What `NewProtocol` starts dragonboat with.
unfoldable pub node_host_config : RaftConfig → List SetOption → NodeHostConfig
unfolding get_data_dir get_heartbeat_period apply
node_host_config config opts =
    let options = apply (record { host = ""; port = pos 0 }) opts in
    record {
      wal_dir = get_data_dir config;
      node_host_dir = get_data_dir config;
      rtt_millisecond = uint64 (milliseconds (get_heartbeat_period config));
      raft_address = options.host ⊕ ":" ⊕ show_int options.port;
    }

-- `if p != nil { serverOptions = append(serverOptions, f(*p)) }`
abbrev pub option_of : {A : Type 0} → (A → ServerOption) → Option A → List ServerOption
option_of f none = []
option_of f (some a) = f a ∷ []

unfoldable pub server_options : ServerConfig → List ServerOption
server_options c =
    option_of read_buffer c.read_buffer_size
    ++ option_of write_buffer c.write_buffer_size
    ++ option_of max_send_msg c.max_send_msg_size
    ++ option_of max_recv_msg c.max_recv_msg_size
    ++ option_of stream_workers c.num_stream_workers
    ++ option_of concurrent_streams c.max_concurrent_streams

-- The protocol and the node that are made before the node is started.
pub record Node : Type 0 where
  pub raft : RaftConfig
  pub host_config : NodeHostConfig
  pub api_host : String
  pub api_port : ℤ
  pub options : List ServerOption

-- The command up to `node.Start`; an error ends the process with status 1.
module _ {E : Type 0} (read_file : String → Result E String)
    (unmarshal : String → Result E Config) where
  abbrev pub make_node : Flags → Config → Node
  make_node flags config = record {
    raft = config.raft;
    host_config =
        node_host_config config.raft (with_host flags.raft_host ∷ with_port flags.raft_port ∷ []);
    api_host = flags.api_host;
    api_port = flags.api_port;
    options = server_options config.server;
  }

  abbrev pub make_or_exit : Flags → Result E Config → Result E Node
  make_or_exit flags (ok config) = ok (make_node flags config)
  make_or_exit flags (err e) = err e

  abbrev pub decode_or_exit : Flags → Result E String → Result E Node
  decode_or_exit flags (ok bytes) = make_or_exit flags (unmarshal bytes)
  decode_or_exit flags (err e) = err e

  unfoldable pub main : Flags → Result E Node
  unfolding node_host_config server_options with_host with_port
  main flags = decode_or_exit flags (read_file flags.config)
