-- ===== src/Launch.antt =====
-- Launches against a daemon (cork/launch.go, cork/launchmetrics.go) and the queue of one daemon
-- (cork/workers.go).
pub mod Ring
pub mod Queue
pub mod Admission
pub mod Slots
pub mod Stages
mod Examples
