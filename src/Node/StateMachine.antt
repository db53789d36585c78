-- ===== src/Node/StateMachine.antt =====
-- node/pkg/consensus/statemachine.go: what the replicated log does to the primitives' state machine.
use multi_raft_storage.Prelude.{String, Result, ok, err}
use multi_raft_storage.Node.Streams.{StreamApi, ProtocolContext, get_stream}
use multi_raft_storage.Node.Partition.{Bytes, Codec}

-- The runtime's `statemachine.StateMachine`: proposals and queries answer on their stream. `Snap`
-- is what a snapshot writer has written, or a reader will read.
pub record Machine (State Input Stream Query QueryStream Snap : Type 0) : Type 0 where
  pub propose : Input → Stream → State → State
  pub query : Query → QueryStream → State → State
  pub snapshot : State → Result String Snap
  pub recover : Snap → State → Result String (Unit {0}) × State

-- `protocolQuery` of context.go
pub record ProtocolQuery (Query QueryStream : Type 0) : Type 0 where
  pub input : Query
  pub stream : QueryStream

module _ (api : StreamApi) (codec : Codec) {State Query QueryStream Snap : Type 0} where
  open api use {Stream}
  open codec use {Input, unmarshal_input, unmarshal_proposal}

  -- `Update`: the bytes of a log entry, under the context of the streams.
  unfoldable pub update :
      Machine State Input Stream Query QueryStream Snap
      → ProtocolContext Stream
      → Bytes
      → State
      → Result String (Unit {0}) × State
  update machine r bytes s = elim (unmarshal_proposal bytes) [
    | err e ↦ (err e, s)
    | ok proposal ↦ elim (unmarshal_input proposal.bytes) [
      | err e ↦ (err e, s)
      | ok input ↦
          (ok tt, machine.propose input (get_stream api proposal.term proposal.sequence_num r) s)
    ]
  ]

module _ {State Input Stream Query QueryStream Snap : Type 0} where
  -- `Lookup`
  unfoldable pub read :
      Machine State Input Stream Query QueryStream Snap
      → ProtocolQuery Query QueryStream
      → State
      → Result String (Unit {0}) × State
  read machine q s = (ok tt, machine.query q.input q.stream s)

  -- `SaveSnapshot`: the error of the writer is returned.
  unfoldable pub save_snapshot :
      Machine State Input Stream Query QueryStream Snap → State → Result String Snap
  save_snapshot machine s = machine.snapshot s

  -- `RecoverFromSnapshot`
  unfoldable pub recover_from_snapshot :
      Machine State Input Stream Query QueryStream Snap
      → Snap
      → State
      → Result String (Unit {0}) × State
  recover_from_snapshot machine snap s = machine.recover snap s
