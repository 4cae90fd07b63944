-- ===== src/Proxy.antt =====
-- internal/proxy/server.go: the gateway for Java clients.
pub mod Snapshot
pub mod SnapshotLaws
pub mod Reloads
pub mod Answers
pub mod Writing
pub mod Connection
pub mod Stages
pub mod Admission
pub mod Relaying
pub mod Metrics
