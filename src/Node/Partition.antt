-- ===== src/Node/Partition.antt =====
-- node/pkg/consensus/partition.go: a member's view of its group, and the executor that submits
-- proposals and queries.
pub mod Laws
use multi_raft_storage.Prelude.{
  ℕ, String, Bool, true, false, List, Option, none, some, Result, ok, err, Exec, ◌==◌,
  if◌then◌else◌, nat_Eq, string_Eq,
}
use multi_raft_storage.Prelude.Assoc.{lookup}
use multi_raft_storage.Prelude.Int.{u32, u64}
use multi_raft_storage.Prelude.Text.{◌⊕◌}
use multi_raft_storage.Node.Errors.{Error, HostError, unavailable, internal, wrap_error}
use multi_raft_storage.Node.Streams.{StreamApi, ProtocolContext, add_stream}

-- The partition's own fields; `id` is the embedded `node.Partition`'s. `ready` is an int32, the
-- leader and the term are 64-bit words.
pub record Partition : Type 0 where
  pub id : ℕ
  pub member_id : ℕ
  pub ready : ℕ
  pub leader : ℕ
  pub term : ℕ

unfoldable pub new_partition : ℕ → ℕ → Partition
new_partition id member_id = record {
  id = id;
  member_id = member_id;
  ready = 0;
  leader = 0;
  term = 0;
}

unfoldable pub set_ready : Partition → Partition
set_ready p = record p { ready = 1 }

unfoldable pub get_ready : Partition → Bool
get_ready p = p.ready == 1

-- The two atomic stores of `setLeader`, in its order.
unfoldable pub store_term : ℕ → Partition → Partition
store_term term p = record p { term = term }

unfoldable pub store_leader : ℕ → Partition → Partition
store_leader leader p = record p { leader = leader }

unfoldable pub set_leader : ℕ → ℕ → Partition → Partition
unfolding store_term store_leader
set_leader term leader p = store_leader leader (store_term term p)

-- The two atomic loads of `getLeader`; `MemberID` has 32 bits.
unfoldable pub load_term : Partition → ℕ
load_term p = p.term

unfoldable pub load_leader : Partition → ℕ
load_leader p = u32 p.leader

unfoldable pub get_leader : Partition → ℕ × ℕ
unfolding load_term load_leader
get_leader p = (load_term p, load_leader p)

abbrev pub Bytes : Type 0
Bytes = List ℕ

-- `RaftProposal` of protocol.proto
pub record RaftProposal : Type 0 where
  pub term : ℕ
  pub sequence_num : ℕ
  pub bytes : Bytes

-- The protobuf encodings, with the text of the error where one fails.
pub record Codec : Type 1 where
  pub Input : Type 0
  pub marshal_input : Input → Result String Bytes
  pub unmarshal_input : Bytes → Result String Input
  pub marshal_proposal : RaftProposal → Result String Bytes
  pub unmarshal_proposal : Bytes → Result String RaftProposal

-- dragonboat's `NodeHost`, over a state that it shares with the executor. `Q` is the type of the
-- queries that it hands to the state machine.
pub record Host (S Q : Type 0) : Type 0 where
  pub sync_propose : ℕ → Bytes → S → Result HostError (Unit {0}) × S
  pub sync_read : ℕ → Q → S → Result HostError (Unit {0}) × S
  pub stale_read : ℕ → Q → S → Result HostError (Unit {0}) × S
  pub message : HostError → String

-- `md["Sync"] != nil`, by the entry of the key.
abbrev pub is_sync : Option (Option (List String)) → Bool
is_sync (some (some values)) = true
is_sync (some none) = false
is_sync none = false

module _ {S Q : Type 0} (host : Host S Q) where
  -- `if _, err := …; err != nil { return wrapError(err) }; return nil`
  abbrev pub wrapped : Result HostError (Unit {0}) × S → Result Error (Unit {0}) × S
  wrapped (ok _, s) = (ok tt, s)
  wrapped (err e, s) = (err (wrap_error host.message e), s)

  -- `Executor.Query`. `metadata` is the incoming gRPC metadata, from key to values, which may be nil.
  unfoldable pub query : List (String × Option (List String)) → ℕ → Q → Exec S Error (Unit {0})
  unfolding wrap_error
  query metadata id q s =
      if is_sync (lookup "Sync" metadata)
      then wrapped (host.sync_read id q s)
      else wrapped (host.stale_read id q s)

module _ (api : StreamApi) (codec : Codec) where
  open api use {Stream}
  open codec use {Input, marshal_input, marshal_proposal}

  -- the second marshalling, of the proposal that carries the stream's identifier
  abbrev encode_proposal : RaftProposal → Exec (ProtocolContext Stream) Error Bytes
  encode_proposal proposal r = elim (marshal_proposal proposal) [
    | ok bytes ↦ (ok bytes, r)
    | err e ↦ (err (internal ("failed to marshal RaftLogEntry: " ⊕ e)), r)
  ]

  abbrev register : ℕ → Bytes → Stream → Exec (ProtocolContext Stream) Error Bytes
  register term input stream r =
      let (n, r') = add_stream api term stream r in
      encode_proposal (record { term = term; sequence_num = n; bytes = input }) r'

  -- `Executor.Propose` up to the call of the host: the leader check, the registration of the
  -- stream, and the bytes to submit.
  unfoldable pub prepare : Partition → Input → Stream → Exec (ProtocolContext Stream) Error Bytes
  unfolding get_leader
  prepare p input stream r =
      let (term, leader) = get_leader p in
      if leader == p.member_id
      then (elim (marshal_input input) [
        | ok bytes ↦ register term bytes stream r
        | err e ↦ (err (internal e), r)
      ])
      else (err (unavailable "not the leader"), r)

module _ (api : StreamApi) (codec : Codec) {W Q : Type 0} where
  open api use {Stream}
  open codec use {Input}

  abbrev submit :
      Host (ProtocolContext Stream × W) Q
      → ℕ
      → W
      → Result Error Bytes × ProtocolContext Stream
      → Result Error (Unit {0}) × (ProtocolContext Stream × W)
  submit host id w (ok bytes, r) = wrapped host (host.sync_propose id bytes (r, w))
  submit host id w (err e, r) = (err e, (r, w))

  -- `Executor.Propose`: the host shares the context of the streams.
  unfoldable pub propose :
      Host (ProtocolContext Stream × W) Q
      → Partition
      → Input
      → Stream
      → Exec (ProtocolContext Stream × W) Error (Unit {0})
  unfolding prepare wrap_error
  propose host p input stream (r, w) = submit host p.id w (prepare api codec p input stream r)
