-- ===== src/Node.antt =====
-- The consensus node: node/pkg/consensus.
pub mod Config
pub mod Options
pub mod Errors
pub mod Streams
pub mod Partition
pub mod Wire
pub mod StateMachine
pub mod Events
pub mod Group
pub mod Protocol
pub mod Server
pub mod Main
