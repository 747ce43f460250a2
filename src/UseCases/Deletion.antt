-- ===== src/UseCases/Deletion.antt =====
-- delete_service_order.go: the cancellation of an order, its payment first.
use oficina_tech_ms_order_se.Shared.{
  Bool, Option, String, if◌then◌else◌, is_empty, none, some, true,
}
use oficina_tech_ms_order_se.Billing.Payments.{cancel_payment_order, refund_payment_order}
use oficina_tech_ms_order_se.Domain.Errors.{service_order_not_found}
use oficina_tech_ms_order_se.Domain.Order.{ServiceOrder, order_is_deleted}
use oficina_tech_ms_order_se.Domain.Status.{OrderStatus, awaiting_payment, paid, payment_rejected}
use oficina_tech_ms_order_se.Platform.Monad.{◌>>=◌, ◌>>◌, Action, pure, raise_if}
use oficina_tech_ms_order_se.Platform.Ports.{Env, find_by_id}
use oficina_tech_ms_order_se.Saga.Orchestrator.{cancel_order}
use oficina_tech_ms_order_se.Saga.Recording.{ignore}
use oficina_tech_ms_order_se.Saga.Values.{StartResult}

-- `DeleteServiceOrderOutput`.
pub record DeletionOutput : Type 0 where
  pub success : Bool
  pub async : Bool
  pub saga_id : Option String

abbrev pub text_or_empty : Option String → String
text_or_empty none = ""
text_or_empty (some s) = s

-- The `switch existingOrder.Status()`: a failed cancellation is logged, a failed refund goes on.
abbrev pub settle_before : Env → ServiceOrder → OrderStatus → Action (Unit {0})
settle_before env order awaiting_payment =
    ignore (cancel_payment_order env (text_or_empty order.mp_preference_id))
settle_before env order payment_rejected =
    ignore (cancel_payment_order env (text_or_empty order.mp_preference_id))
settle_before env order paid = refund_payment_order env (text_or_empty order.mp_payment_id)
settle_before env order _ = pure tt

abbrev deletion_output : StartResult → DeletionOutput
deletion_output result = record {
  success = true;
  async = result.async;
  saga_id = if is_empty result.saga_id then none else some result.saga_id;
}

unfoldable pub cancel_after_payment : Env → String → Option String → Action DeletionOutput
cancel_after_payment env id notes = do
  result ← cancel_order env id notes
  pure (deletion_output result)

unfoldable pub delete_service_order : Env → String → Option String → Action DeletionOutput
delete_service_order env id notes = do
  order ← find_by_id env id
  raise_if (order_is_deleted order) service_order_not_found
  settle_before env order order.status
  cancel_after_payment env id notes
