-- ===== src/Detail.antt =====
-- internal/p2p/rpc_fetch.go: references to the details of tasks and facts.
pub mod Ref
pub mod Path
pub mod Parse
pub mod Plain
pub mod Digits
pub mod Segments
pub mod RoundTrip
pub mod Tests
