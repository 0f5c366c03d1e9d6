-- ===== src/Status.antt =====
-- Forced response statuses: pkg/server/response/status/statusManager.go and status.go.
pub mod Config
pub mod Manager
pub mod FlipFlop
pub mod Server
