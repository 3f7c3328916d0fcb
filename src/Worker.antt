-- ===== src/Worker.antt =====
-- The fleet of workers (cork/workers.go and cork/worker_reconcile.go).
pub mod Timing
pub mod Conn
pub mod Timeouts
pub mod Probe
pub mod Fleet
pub mod Transport
pub mod Reconcile
pub mod Select
mod Examples
