-- ===== src/Store.antt =====
-- internal/p2p/store.go: the local state of a node, in memory and on disk.
pub mod State
pub mod Files
pub mod Tasks
pub mod Facts
pub mod Rates
pub mod Records
pub mod Lists
pub mod Gc
pub mod Open
pub mod Run
pub mod Tests
