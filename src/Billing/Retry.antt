-- ===== src/Billing/Retry.antt =====
-- retry_payment.go: a new order at Mercado Pago for a service order whose payment was rejected.
use oficina_tech_ms_order_se.Shared.{String, not}
use oficina_tech_ms_order_se.Billing.Payments.{create_payment_preference}
use oficina_tech_ms_order_se.Domain.Errors.{invalid_status_transition}
use oficina_tech_ms_order_se.Domain.History.{
  Metadata, build_status_only_metadata, moment, new_history, put, text,
}
use oficina_tech_ms_order_se.Domain.Item.{Time}
use oficina_tech_ms_order_se.Domain.Order.{ServiceOrder, await_payment}
use oficina_tech_ms_order_se.Domain.Status.{OrderStatus, payment_rejected, status_eq}
use oficina_tech_ms_order_se.Platform.Monad.{◌>>=◌, ◌>>◌, Action, lift, pure, raise_if}
use oficina_tech_ms_order_se.Platform.Ports.{
  Env, MpOrder, find_by_id, read_clock, save_history_record, save_order,
}

-- `RetryPaymentOutput`.
pub record RetryOutput : Type 0 where
  pub payment_url : String
  pub mp_order_id : String

-- `retry_at` holds the time that the source formats.
unfoldable pub retry_metadata : OrderStatus → OrderStatus → MpOrder → Time → Metadata
retry_metadata old_status new_status mp_order now =
    let changed = build_status_only_metadata old_status new_status in
    let identified = put "mp_order_id" (text mp_order.id) changed in
    let linked = put "payment_url" (text mp_order.redirect_url) identified in
    put "retry_at" (moment now) linked

-- The end of `Execute`, with the order that `AwaitPayment` left.
unfoldable pub record_retry : Env → ServiceOrder → OrderStatus → MpOrder → Action RetryOutput
record_retry env order old_status mp_order = do
  now ← read_clock env
  let metadata = retry_metadata old_status order.status mp_order (now 0)
  history ← lift (new_history order.id metadata order.status (now 1))
  save_history_record env history
  save_order env order
  pure (record { payment_url = mp_order.redirect_url; mp_order_id = mp_order.id })

unfoldable pub await_retry : Env → ServiceOrder → MpOrder → Action RetryOutput
await_retry env order mp_order = do
  now ← read_clock env
  waiting_order ← lift (await_payment order mp_order.id mp_order.redirect_url now)
  record_retry env waiting_order order.status mp_order

unfoldable pub retry_payment : Env → String → Action RetryOutput
retry_payment env service_order_id = do
  order ← find_by_id env service_order_id
  raise_if (not (status_eq order.status payment_rejected)) invalid_status_transition
  mp_order ← create_payment_preference env order
  await_retry env order mp_order
