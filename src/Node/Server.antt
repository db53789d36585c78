-- ===== src/Node/Server.antt =====
-- node/pkg/consensus/server.go: the gRPC service of a node. `to_proto` is `errors.ToProto` of the
-- runtime, and the responses are empty.
pub mod Channels
pub mod Invariant
pub mod Safety
pub mod Progress
pub mod Blocked
pub mod Lost
pub mod Overwritten
pub mod Counter
use multi_raft_storage.Prelude.{ℕ, List, [], ◌∷◌, Option, none, some, Result, ok, err, Exec, pure}
use multi_raft_storage.Node.Config.{RaftConfig}
use multi_raft_storage.Node.Errors.{Error}
use multi_raft_storage.Node.Events.{Event}
use multi_raft_storage.Node.Group.{ClusterHost, GroupConfig}
use multi_raft_storage.Node.Group

module _ {S P : Type 0} (to_proto : Error → P) where
  -- The error of a call as gRPC returns it.
  abbrev pub respond : Result Error (Unit {0}) × S → Result P (Unit {0}) × S
  respond (ok _, s) = (ok tt, s)
  respond (err e, s) = (err (to_proto e), s)

  -- `none` is a panic.
  abbrev pub respond_or_panic :
      Option (Result Error (Unit {0}) × S) → Option (Result P (Unit {0}) × S)
  respond_or_panic none = none
  respond_or_panic (some r) = some (respond r)

  module _ (host : ClusterHost S) where
    unfoldable pub bootstrap : RaftConfig → GroupConfig → S → Option (Result P (Unit {0}) × S)
    bootstrap c group s = respond_or_panic (Group.bootstrap host c group s)

    unfoldable pub join : RaftConfig → GroupConfig → S → Option (Result P (Unit {0}) × S)
    join c group s = respond_or_panic (Group.join host c group s)

    unfoldable pub leave : ℕ → S → Result P (Unit {0}) × S
    leave group_id s = respond (Group.leave host group_id s)

  -- The loop of `Watch` over what its channel gives until it is closed; `send` is the stream's `Send`.
  unfoldable pub serve :
      (Event → S → Result Error (Unit {0}) × S) → List Event → Exec S P (Unit {0})
  serve send [] s = (ok tt, s)
  serve send (event ∷ events) s = elim (send event s).0 [
    | ok _ ↦ serve send events (send event s).1
    | err e ↦ (err (to_proto e), (send event s).1)
  ]
