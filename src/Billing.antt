-- ===== src/Billing.antt =====
-- billing/application/usecases: the payments of the service orders at Mercado Pago.
pub mod Payments
pub mod Webhook
pub mod Retry
pub mod Effects
pub mod Marks
pub mod Once
pub mod Paid
