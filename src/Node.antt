-- ===== src/Node.antt =====
-- internal/p2p/node.go: the node, which joins the store, the envelopes and the network.
pub mod State
pub mod Inbound
pub mod Publish
pub mod Session
pub mod Fetch
pub mod Peers
pub mod Config
pub mod Start
pub mod Negotiation
pub mod Life
pub mod Tests
