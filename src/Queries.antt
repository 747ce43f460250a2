-- ===== src/Queries.antt =====
-- The queries of service_order_repository.go that return several orders, and the use cases that list
-- orders and histories.
pub mod Selection
pub mod Sorted
pub mod Reading
pub mod Listed
pub mod Answer
pub mod Members
