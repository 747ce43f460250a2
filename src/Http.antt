-- ===== src/Http.antt =====
-- internal/modules/service_order/infra/http, internal/modules/billing/infra/http and
-- internal/shared/utils: how requests are answered.
pub mod Keywords
pub mod Mapping
pub mod Handlers
pub mod OwnOrders
pub mod Routes
pub mod Failures
pub mod Replies
pub mod Guarded
pub mod Payments
pub mod PaymentReplies
