-- ===== src/Billing/Webhook.antt =====
-- handle_payment_webhook.go: what a notification of Mercado Pago does to an order.
use oficina_tech_ms_order_se.Shared.{
  Bool, String, false, if◌then◌else◌, is_empty, not, some, str_eq, true, ◌||◌,
}
use oficina_tech_ms_order_se.Domain.Errors.{Result, malformed_webhook}
use oficina_tech_ms_order_se.Domain.History.{
  Metadata, build_status_only_metadata, new_history, put, text,
}
use oficina_tech_ms_order_se.Domain.Item.{Clock}
use oficina_tech_ms_order_se.Domain.Order.{
  ServiceOrder, cancel_after_refund, confirm_payment, reject_payment,
}
use oficina_tech_ms_order_se.Domain.Status.{
  OrderStatus, awaiting_payment, canceled, paid, payment_rejected, status_eq, to_string,
}
use oficina_tech_ms_order_se.Platform.Monad.{◌>>=◌, ◌>>◌, Action, lift, pure, raise_if}
use oficina_tech_ms_order_se.Platform.Ports.{
  Env, MpPayment, call_mp_payment, find_by_id, read_clock, save_history_record, save_order,
}
use oficina_tech_ms_order_se.Saga.Recording.{send_status_update_email}
use oficina_tech_ms_order_se.Saga.Values.{put_present}

-- `HandlePaymentWebhookInput` and `HandlePaymentWebhookOutput`.
pub record WebhookInput : Type 0 where
  pub mp_order_id : String
  pub reference : String

pub record WebhookOutput : Type 0 where
  pub processed : Bool
  pub status : String
  pub order_id : String

abbrev pub webhook_output : Bool → ServiceOrder → WebhookOutput
webhook_output processed order = record {
  processed = processed;
  status = to_string order.status;
  order_id = order.id;
}

unfoldable pub payment_metadata : OrderStatus → OrderStatus → String → String → String → Metadata
payment_metadata old_status new_status payment_id payment_status status_detail =
    let changed = build_status_only_metadata old_status new_status in
    let identified = put "mp_payment_id" (text payment_id) changed in
    let described_by = put "mp_payment_status" (text payment_status) identified in
    put_present "mp_payment_status_detail" (some status_detail) described_by

unfoldable pub save_payment_history :
    Env → ServiceOrder → OrderStatus → OrderStatus → String → String → String → Action (Unit {0})
save_payment_history env order old_status new_status payment_id payment_status status_detail = do
  now ← read_clock env
  let metadata = payment_metadata old_status new_status payment_id payment_status status_detail
  history ← lift (new_history order.id metadata new_status (now 0))
  save_history_record env history

-- The end that the three methods share: history, order, e-mail.
unfoldable pub record_payment :
    Env → ServiceOrder → OrderStatus → String → String → String → Action WebhookOutput
record_payment env order old_status payment_id payment_status status_detail = do
  save_payment_history env order old_status order.status payment_id payment_status status_detail
  save_order env order
  send_status_update_email env order old_status order.status
  pure (webhook_output true order)

-- A change of the order in the body of one of the three methods.
abbrev pub OrderChange : Type 0
OrderChange = ServiceOrder → Clock → Result ServiceOrder

unfoldable pub apply_change :
    Env → ServiceOrder → OrderChange → String → String → String → Action WebhookOutput
apply_change env order step_of payment_id payment_status status_detail = do
  now ← read_clock env
  changed ← lift (step_of order now)
  record_payment env changed order.status payment_id payment_status status_detail

-- The two early returns: the change is done already, or the order is not where it starts.
unfoldable pub mark :
    Env
    → OrderStatus
    → OrderStatus
    → OrderChange
    → String
    → String
    → String
    → String
    → Action WebhookOutput
mark env done from step_of order_id payment_id payment_status status_detail = do
  order ← find_by_id env order_id
  if status_eq order.status done || not (status_eq order.status from)
      then pure (webhook_output false order)
      else apply_change env order step_of payment_id payment_status status_detail

abbrev pub mark_approved : Env → String → String → Action WebhookOutput
mark_approved env order_id payment_id =
    mark env paid awaiting_payment (λ order now. confirm_payment order payment_id now) order_id
      payment_id "approved" ""

abbrev pub mark_rejected : Env → String → String → String → String → Action WebhookOutput
mark_rejected env order_id payment_id payment_status status_detail =
    mark env payment_rejected awaiting_payment reject_payment order_id payment_id payment_status
      status_detail

abbrev pub mark_refunded : Env → String → String → Action WebhookOutput
mark_refunded env order_id payment_id =
    mark env canceled paid cancel_after_refund order_id payment_id "refunded" ""

-- The second case of the switch.
abbrev pub is_rejection : String → Bool
is_rejection status =
    str_eq status "rejected" || str_eq status "cancelled" || str_eq status "canceled"

-- The `switch mpPayment.Status`; its last two cases are the same.
unfoldable pub settle_payment : Env → String → MpPayment → Action WebhookOutput
settle_payment env order_id payment =
    if str_eq payment.status "approved"
    then mark_approved env order_id payment.id
    else if is_rejection payment.status
    then mark_rejected env order_id payment.id payment.status payment.status_detail
    else if str_eq payment.status "refunded"
    then mark_refunded env order_id payment.id
    else pure (record { processed = false; status = payment.status; order_id = order_id })

-- The order that a payment is for; the notification's own reference stands in for a missing one.
abbrev pub referenced_order : MpPayment → WebhookInput → String
referenced_order payment input =
    if is_empty payment.external_reference then input.reference else payment.external_reference

unfoldable pub handle_payment_webhook : Env → WebhookInput → Action WebhookOutput
handle_payment_webhook env input = do
  payment ← call_mp_payment env input.mp_order_id
  raise_if (is_empty (referenced_order payment input)) malformed_webhook
  settle_payment env (referenced_order payment input) payment
