-- ===== src/Agent.antt =====
-- The exit agent (agent/): it mirrors the backend's authorized set onto the kernel, reads the
-- byte counters, reports usage, and fails closed when the backend stays away.
pub mod State
pub mod Host
pub mod Sync
pub mod Usage
pub mod Grace
pub mod Loop
pub mod Heartbeat
pub mod Wg
