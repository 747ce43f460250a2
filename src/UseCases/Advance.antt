-- ===== src/UseCases/Advance.antt =====
-- advance_service_order_status.go: the next status of an order.
use oficina_tech_ms_order_se.Shared.{String, if◌then◌else◌, none, not, ◌&&◌}
use oficina_tech_ms_order_se.Billing.Payments.{create_payment_preference}
use oficina_tech_ms_order_se.Domain.Errors.{service_order_deleted}
use oficina_tech_ms_order_se.Domain.History.{Metadata, build_status_only_metadata, put, text}
use oficina_tech_ms_order_se.Domain.Order.{ServiceOrder, await_payment, order_is_deleted}
use oficina_tech_ms_order_se.Domain.Status.{
  OrderStatus, awaiting_payment, completed, next_status, status_eq,
}
use oficina_tech_ms_order_se.Domain.Stock.{
  StockOperation, determine_inventory_operation, is_no_operation,
}
use oficina_tech_ms_order_se.Platform.Monad.{◌>>=◌, ◌>>◌, Action, lift, raise_if}
use oficina_tech_ms_order_se.Platform.Ports.{Env, MpOrder, find_by_id, read_clock}
use oficina_tech_ms_order_se.UseCases.Steps.{StepOutput, record_step, step_by_saga, step_locally}

unfoldable pub preference_metadata : OrderStatus → OrderStatus → MpOrder → Metadata
preference_metadata old_status new_status preference =
    let changed = build_status_only_metadata old_status new_status in
    let identified = put "mp_order_id" (text preference.id) changed in
    put "payment_url" (text preference.redirect_url) identified

-- The end of `startPayment`, from `AwaitPayment` on.
unfoldable pub await_preference : Env → ServiceOrder → MpOrder → Action StepOutput
await_preference env order preference = do
  now ← read_clock env
  billed ← lift (await_payment order preference.id preference.redirect_url now)
  record_step env billed order.status (preference_metadata order.status billed.status preference)
      billed.payment_url

unfoldable pub start_payment : Env → ServiceOrder → Action StepOutput
start_payment env order = do
  preference ← create_payment_preference env order
  await_preference env order preference

-- The three ways to the next status.
unfoldable pub advance_to : Env → ServiceOrder → StockOperation → OrderStatus → Action StepOutput
advance_to env order op target =
    if not (is_no_operation op)
    then step_by_saga env order.id op target none
    else if status_eq order.status completed && status_eq target awaiting_payment
    then start_payment env order
    else step_locally env order target (λ metadata. metadata)

unfoldable pub advance_service_order_status : Env → String → Action StepOutput
advance_service_order_status env service_order_id = do
  order ← find_by_id env service_order_id
  raise_if (order_is_deleted order) service_order_deleted
  target ← lift (next_status order.status)
  advance_to env order (determine_inventory_operation order.status target) target
