-- ===== src/UseCases/Steps.antt =====
-- What advance_service_order_status.go and respond_to_authorization.go share: a step through the
-- saga, and the end of a step without one.
use oficina_tech_ms_order_se.Shared.{
  Bool, Option, String, false, if◌then◌else◌, is_empty, none, some,
}
use oficina_tech_ms_order_se.Domain.History.{Metadata, build_status_only_metadata, new_history}
use oficina_tech_ms_order_se.Domain.Order.{ServiceOrder, update_status}
use oficina_tech_ms_order_se.Domain.Status.{OrderStatus}
use oficina_tech_ms_order_se.Domain.Stock.{StockOperation}
use oficina_tech_ms_order_se.Platform.Monad.{◌>>=◌, ◌>>◌, Action, lift, pure}
use oficina_tech_ms_order_se.Platform.Ports.{Env, read_clock, save_history_record, save_order}
use oficina_tech_ms_order_se.Saga.Orchestrator.{start_order_saga}
use oficina_tech_ms_order_se.Saga.Recording.{send_status_update_email}
use oficina_tech_ms_order_se.Saga.Values.{StartResult}

-- The outputs of the two use cases; the fields of the order that they copy are the order here.
pub record StepOutput : Type 0 where
  pub order : ServiceOrder
  pub saga_id : Option String
  pub async : Bool
  pub payment_url : Option String

abbrev saga_output : StartResult → StepOutput
saga_output result = record {
  order = result.order;
  saga_id = if is_empty result.saga_id then none else some result.saga_id;
  async = result.async;
  payment_url = none;
}

abbrev local_output : ServiceOrder → Option String → StepOutput
local_output order url = record { order = order; saga_id = none; async = false; payment_url = url }

unfoldable pub step_by_saga :
    Env → String → StockOperation → OrderStatus → Option String → Action StepOutput
step_by_saga env order_id op target notes = do
  result ← start_order_saga env order_id op target notes
  pure (saga_output result)

-- History, order, e-mail.
unfoldable pub record_step :
    Env → ServiceOrder → OrderStatus → Metadata → Option String → Action StepOutput
record_step env order old_status metadata url = do
  now ← read_clock env
  history ← lift (new_history order.id metadata order.status (now 0))
  save_history_record env history
  save_order env order
  send_status_update_email env order old_status order.status
  pure (local_output order url)

-- A step without a saga; `note` is what the use case adds to the metadata.
unfoldable pub step_locally :
    Env → ServiceOrder → OrderStatus → (Metadata → Metadata) → Action StepOutput
step_locally env order target note = do
  now ← read_clock env
  moved ← lift (update_status order target now)
  record_step env moved order.status (note (build_status_only_metadata order.status moved.status))
      none
