-- ===== src/Saga/Recording.antt =====
-- saga_orchestrator.go: `saveHistory` and `sendStatusUpdateEmail`, and the order of the writes that
-- end a step of the saga.
use oficina_tech_ms_order_se.Shared.{Option, String, if◌then◌else◌}
use oficina_tech_ms_order_se.Domain.Errors.{Result, ok}
use oficina_tech_ms_order_se.Domain.History.{new_history}
use oficina_tech_ms_order_se.Domain.Item.{Clock}
use oficina_tech_ms_order_se.Domain.Order.{ServiceOrder, update_status}
use oficina_tech_ms_order_se.Domain.Status.{OrderStatus, status_eq, to_string}
use oficina_tech_ms_order_se.Domain.Stock.{StockOperation}
use oficina_tech_ms_order_se.Platform.Monad.{◌>>=◌, ◌>>◌, Action, CustomerDto, Email, lift, pure}
use oficina_tech_ms_order_se.Platform.Ports.{
  Env, get_customer_by_id, read_clock, save_history_record, save_order, send_email,
}
use oficina_tech_ms_order_se.Saga.Values.{saga_metadata}

unfoldable pub save_saga_history :
    Env
    → ServiceOrder
    → OrderStatus
    → OrderStatus
    → StockOperation
    → String
    → Option String
    → Option String
    → Action (Unit {0})
unfolding new_history
save_saga_history env order old_status new_status op saga_id failure_reason notes = do
  now ← read_clock env
  let metadata = saga_metadata order old_status new_status op saga_id failure_reason notes (now 0)
  history ← lift (new_history order.id metadata new_status (now 1))
  save_history_record env history

-- A failure is logged and goes no further.
abbrev pub ignore : Action (Unit {0}) → Action (Unit {0})
ignore m w = let (_, v) = m w in (ok tt, v)

abbrev status_email : CustomerDto → ServiceOrder → OrderStatus → OrderStatus → Email
status_email customer order old_status new_status = record {
  to = customer.email;
  name = customer.name;
  order_id = order.id;
  old_status = to_string old_status;
  new_status = to_string new_status;
}

unfoldable pub send_status_update_email :
    Env → ServiceOrder → OrderStatus → OrderStatus → Action (Unit {0})
send_status_update_email env order old_status new_status = ignore (do
  customer ← get_customer_by_id env order.customer_id
  send_email env (status_email customer order old_status new_status))

abbrev pub notify : Env → ServiceOrder → OrderStatus → OrderStatus → Action (Unit {0})
notify env order old_status new_status =
    if env.notifies then send_status_update_email env order old_status new_status else pure tt

-- `if old != target { if err := order.UpdateStatus(target); err != nil { return err } }`.
abbrev pub move_to : ServiceOrder → OrderStatus → Clock → Result ServiceOrder
move_to order target now =
    if status_eq order.status target then ok order else update_status order target now

-- The end that `HandleSucceeded` and `transitionLocal` share: history, then order, then e-mail.
unfoldable pub conclude :
    Env
    → ServiceOrder
    → OrderStatus
    → OrderStatus
    → StockOperation
    → String
    → Option String
    → Option String
    → Action (Unit {0})
conclude env order old_status new_status op saga_id failure_reason notes = do
  save_saga_history env order old_status new_status op saga_id failure_reason notes
  save_order env order
  notify env order old_status new_status
