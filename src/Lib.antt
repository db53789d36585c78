-- ===== src/Lib.antt =====
-- A model of multi-raft storage: nodes that replicate the primitives of a runtime in many Raft groups,
-- and a Kubernetes controller that places the groups' members in pods and follows the nodes' events.
--
-- The node (node/pkg/consensus). A client's proposal goes through `Executor.Propose` into dragonboat's
-- log, and from there through `stateMachine.Update` to the primitives on every member; only the member
-- that proposed it has the stream to answer on, in `protocolContext`. dragonboat's callbacks become
-- events, which `Protocol.publish` keeps in the partitions and sends to the watchers.
-- - Node/Config, Node/Options: config.go and options.go.
-- - Node/Errors: `wrapError` of protocol.go.
-- - Node/Streams: context.go, `addStream`, `removeStream` and `getStream`. Node/Streams/Concurrent takes
--   `addStream` apart into its atomic increment (`reserve`) and its locked insertion (`register`).
-- - Node/Partition: partition.go; `prepare` is `Propose` up to the call of the host.
-- - Node/Wire: protocol.pb.go, the wire format of `RaftProposal`; Node/Wire/Encoding makes of it a `Codec`
--   for the executor and the state machine.
-- - Node/StateMachine: statemachine.go; `update` is `Update`, `read` is `Lookup`.
-- - Node/Events: events.go; each callback of the listener, and `to_event`, which tells them apart.
-- - Node/Protocol: publication and `Watch` of protocol.go; Node/Protocol/Reach has the steps of a node.
-- - Node/Group: `Bootstrap`, `Join` and `Leave` of protocol.go.
-- - Node/Server: server.go; Node/Server/Channels has `publish`, `Watch` and the streams' loops as threads
--   over the protocol's lock and the channels of 100 events, where Node/Protocol has them as functions.
--   Node/Server/Counter has the accesses of `Watch` to the counter of watchers, which no lock guards, and
--   Node/Server/Lost and Node/Server/Overwritten what becomes of a stream whose number is taken.
-- - Node/Main: node/cmd/atomix-consensus-node/main.go and `NewProtocol`, up to the start of the node.
--
-- The controller (controller/pkg/controller/consensus/v1beta1). The store's reconciler creates a cluster,
-- the cluster's reconciler creates groups and members, and starts each member in its pod by `Bootstrap`;
-- the pod watcher turns the events of a node into the statuses of members and groups, from which the
-- cluster's and the store's reconcilers take theirs.
-- - Controller/Api: the records of controller/pkg/apis/consensus/v1beta1.
-- - Controller/Placement: the counts and names of cluster.go; `pod_ordinal` is the number in `getPodName`.
-- - Controller/Labels: the maps of labels and annotations of cluster.go.
-- - Controller/Statuses: the comparisons of cluster.go and store.go.
-- - Controller/Watcher: the two updates that watcher.go makes at an event, `update_group` for
--   `recordGroupEvent` and `update_member` for `recordMemberEvent`. Controller/Watcher/Records has those two
--   with their writes, and the loop of `watch`.
-- - Controller/Kube: the fields that cluster.go sets of Kubernetes' stateful sets and services.
-- - Controller/Client: what the reconcilers use of the Kubernetes API, of gRPC and of controller-runtime.
-- - Controller/Cluster: `reconcileMember` of cluster.go; Controller/Cluster/Groups its loops over members
--   and groups, and `Reconcile`; Controller/Cluster/Workloads the stateful set and the services,
--   Controller/Cluster/Resources the config map and how each is created.
--   Controller/Cluster/Writes has the client that counts writes, Controller/Cluster/Targets what the node
--   reads from the request to start a member, Controller/Cluster/Starts when a start is recorded, and
--   Controller/Cluster/Converge an API server that keeps what is written, the passes in a row on it, and the
--   partitions that a pass makes of it.
-- - Controller/Store: `Reconcile` of store.go.
-- - Controller/Pods: the pods' reconciler of watcher.go; Controller/Pods/Watches has the steps of its watches.
-- Prelude holds the shared notation, Go's integers and maps, and results with a state; Tests runs the
-- theorems at concrete inputs.
--
-- Conventions. Words are native numbers with their wrap-around written out (`u32`, `u64`, `int64`).
-- `(value, error)` is a `Result`, and a method that changes a state an `Exec`, which keeps the state that
-- it has reached when it fails. A panic is `none`, in
-- Node/Wire/Reading `index_out_of_range`. A map is an association list. All recursion is
-- structural: a loop up to a number counts its rounds down. The passes of a reconciler in a row and the
-- rounds of a watch's loop are given a number; theorems say which number is enough.
--
-- Parameters: the protobuf codec (`Codec`; the half for proposals is Node/Wire's), dragonboat (`Host`,
-- `ClusterHost`), the runtime's streams (`StreamApi`), state machine (`Machine`) and `errors.ToProto`, the Kubernetes API (`Client`), the YAML
-- codec of the configuration, and `backoff.Retry` (`retry`). What is assumed of them is a named record:
-- `IsLawful`, `IsQuiet`, `RefusesTwice`, `IsStored`, `IsSole`, `IsMounted`.
--
-- Not modelled: the generated code of the other messages and the deep copies, the controller's command
-- line, the registration of schemes and watches, the driver, logging; the gRPC connection of a pod's watch; what
-- the runtime and dragonboat do with a node that is started.
pub mod Prelude
pub mod Node
pub mod Controller
pub mod Tests
