-- ===== src/Store.antt =====
-- internal/store: the tables, the generated queries and the transactions.
pub mod Enums
pub mod Model
pub mod Action
pub mod Users
pub mod Invites
pub mod Inventory
pub mod Vessels
pub mod Triple
pub mod Healthy
pub mod Keeps
