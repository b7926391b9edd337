-- ===== src/Domain.antt =====
-- internal/domain: accounts, sessions, invites, stock, vessels and schedules.
pub mod Users
pub mod Sessions
pub mod Inventory
pub mod Vessels
pub mod Schedule
pub mod Keeps
pub mod Dates
pub mod EventData
pub mod Metrics
