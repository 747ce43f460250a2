-- ===== src/Platform.antt =====
-- What the use cases work on and with: the stored orders and histories, the messages sent, and the
-- outside that may fail at any call. The ports are `service_order.Repository`,
-- `service_order.HistoryRepository`, the saga's publisher, the customer adapter, the e-mail service
-- and `payment.MercadoPagoClient`.
pub mod Monad
pub mod Table
pub mod Ports
pub mod Rules
pub mod Outcomes
pub mod Evolution
pub mod Silent
