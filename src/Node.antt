-- ===== src/Node.antt =====
-- Package node: the in-memory state of one node, and the relation of a folder to a peer.
pub mod Peer
pub mod State
pub mod TrustSpec
pub mod Trust
pub mod Peers
pub mod Relation
mod Tests
