-- ===== src/Domain.antt =====
-- The domain of service orders: internal/modules/service_order/domain/service_order.
pub mod Errors
pub mod Status
pub mod Stock
pub mod Item
pub mod Order
pub mod History
