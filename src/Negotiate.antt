-- ===== src/Negotiate.antt =====
-- internal/p2p/rpc_negotiate.go: direct negotiation frames.
pub mod Frame
