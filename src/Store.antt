-- ===== src/Store.antt =====
-- The backend's store (backend/store/): the tables, and the operations on them. An operation is the
-- transaction that the code runs; its SQL is written out on the tables.
pub mod State
pub mod Authz
pub mod Whitelist
pub mod Accounts
pub mod Purchases
pub mod Usage
pub mod Retention
pub mod Keys
pub mod Wg
pub mod Exits
