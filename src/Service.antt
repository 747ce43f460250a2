-- ===== src/Service.antt =====
-- The whole service as a machine: requests, notifications and events in any order.
pub mod Calls
pub mod Runs
pub mod Server
pub mod Born
pub mod Growth
