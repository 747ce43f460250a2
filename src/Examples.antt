-- ===== src/Examples.antt =====
-- The theorems of the development applied to concrete orders, items and events, and the data for it.
pub mod Data
mod Orders
mod Sagas
mod Services
mod Messages
mod Requests
mod Readings
mod Entries
mod Exchanges
