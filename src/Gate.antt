-- ===== src/Gate.antt =====
-- The whole gate: the backend's authorized set and an agent's kernel set, over the wire between them
-- (backend/store/authz.go, backend/api.go and agent/agent.go together).
pub mod Mirror
pub mod Runs
pub mod Slots
pub mod Peers
pub mod Delivered
pub mod Drift
