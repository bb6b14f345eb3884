-- ===== src/Examples.antt =====
-- Concrete inputs for the theorems: a host that can be run, and the theorems at work on it.
mod Kernel
mod Sync
mod Usage
mod Backend
mod Billing
mod Accounts
mod Drift
mod Proxy
mod Wg
mod Compact
mod Npub
mod Retention
mod Portal
mod Token
mod Payments
mod Peers
