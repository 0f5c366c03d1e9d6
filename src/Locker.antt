-- ===== src/Locker.antt =====
-- The registry's lockers (pkg/registry/locker/locker.go).
pub mod Tree
pub mod Data
pub mod Peer
pub mod Combi
pub mod Labels
pub mod Labeled
