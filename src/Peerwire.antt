-- ===== src/Peerwire.antt =====
-- internal/peerwire: the wire between two nodes.
pub mod Message
pub mod Offers
pub mod Inbound
pub mod Serve
pub mod Sending
pub mod Outbound
pub mod Backoff
pub mod Lifecycle
pub mod Egress
pub mod Hub
mod Tests
