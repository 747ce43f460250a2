-- ===== src/Saga/Orchestrator.antt =====
-- saga_orchestrator.go: the operations of the orchestrator.
use oficina_tech_ms_order_se.Shared.{
  Bool, List, Option, String, [], false, if◌then◌else◌, none, some, true, ◌∷◌,
}
use oficina_tech_ms_order_se.Domain.Errors.{
  Result, err, fail_if, invalid_status_transition, saga_already_in_progress, service_order_deleted,
}
use oficina_tech_ms_order_se.Domain.Item.{Clock}
use oficina_tech_ms_order_se.Domain.Order.{
  ServiceOrder, can_process_saga, complete_saga, fail_saga, is_awaiting_inventory, order_is_deleted,
  start_saga,
}
use oficina_tech_ms_order_se.Domain.Status.{
  OrderStatus, authorized, awaiting_payment, canceled, completed, diagnosing, in_progress, paid,
  payment_rejected, pending_authorization, received,
}
use oficina_tech_ms_order_se.Domain.Stock.{
  StockOperation, cancel_confirmed, cancel_reserved, no_operation,
}
use oficina_tech_ms_order_se.Platform.Monad.{◌>>=◌, ◌>>◌, Action, InventoryItem, lift, pure, raise}
use oficina_tech_ms_order_se.Platform.Ports.{
  Env, find_by_id, generate_uuid, publish_request, read_clock, save_order,
}
use oficina_tech_ms_order_se.Queries.Selection.{find_awaiting_inventory}
use oficina_tech_ms_order_se.Saga.Recording.{conclude, move_to}
use oficina_tech_ms_order_se.Saga.Values.{
  FailedEvent, StartResult, SucceededEvent, infer_operation, inventory_items,
  target_status_for_success,
}

-- The end of `transitionLocal`, with the order as it left it.
unfoldable pub finish_transition :
    Env
    → ServiceOrder
    → OrderStatus
    → StockOperation
    → String
    → Option String
    → Clock
    → ServiceOrder
    → Action ServiceOrder
finish_transition env order target op saga_id notes now moved = do
  let done = complete_saga moved (now 2)
  conclude env done order.status target op saga_id none notes
  pure done

unfoldable pub transition_local :
    Env → ServiceOrder → OrderStatus → StockOperation → String → Option String → Action ServiceOrder
transition_local env order target op saga_id notes = do
  now ← read_clock env
  moved ← lift (move_to order target now)
  finish_transition env order target op saga_id notes now moved

abbrev pub check_free : ServiceOrder → Result (Unit {0})
check_free order =
    if order_is_deleted order
    then err service_order_deleted
    else fail_if (is_awaiting_inventory order.saga_status) saga_already_in_progress

-- The end of `StartSaga`: the order is stored before the request is published.
unfoldable pub send_request :
    Env → String → StockOperation → List InventoryItem → ServiceOrder → Action StartResult
send_request env saga_id op items started = do
  save_order env started
  publish_request env
      (record { saga_id = saga_id; order_id = started.id; operation = op; items = items })
  pure (record { order = started; saga_id = saga_id; async = true })

-- `StartSaga` behind its guards, for an order that has products.
unfoldable pub start_async :
    Env → ServiceOrder → StockOperation → OrderStatus → Option String → Action StartResult
start_async env order op target notes = do
  saga_id ← generate_uuid env
  now ← read_clock env
  started ← lift (start_saga order saga_id target notes (now 0))
  send_request env saga_id op (inventory_items order) started

-- The transition without a saga, and its result.
abbrev pub finish_local :
    Env → ServiceOrder → OrderStatus → StockOperation → Option String → Action StartResult
finish_local env order target op notes = do
  done ← transition_local env order target op "" notes
  pure (record { order = done; saga_id = ""; async = false })

unfoldable pub has_no_items : List InventoryItem → Bool
has_no_items [] = true
has_no_items (_ ∷ _) = false

unfoldable pub start_order_saga :
    Env → String → StockOperation → OrderStatus → Option String → Action StartResult
start_order_saga env order_id op target notes = do
  order ← find_by_id env order_id
  lift (check_free order)
  if has_no_items (inventory_items order)
      then finish_local env order target op notes
      else start_async env order op target notes

-- The `switch order.Status()` of `CancelOrder`.
abbrev pub cancel_by_status :
    Env → String → ServiceOrder → Option String → OrderStatus → Action StartResult
cancel_by_status env id order notes received = finish_local env order canceled no_operation notes
cancel_by_status env id order notes diagnosing = finish_local env order canceled no_operation notes
cancel_by_status env id order notes pending_authorization =
    start_order_saga env id cancel_reserved canceled notes
cancel_by_status env id order notes authorized =
    start_order_saga env id cancel_reserved canceled notes
cancel_by_status env id order notes in_progress =
    start_order_saga env id cancel_reserved canceled notes
cancel_by_status env id order notes completed =
    start_order_saga env id cancel_confirmed canceled notes
cancel_by_status env id order notes awaiting_payment =
    start_order_saga env id cancel_confirmed canceled notes
cancel_by_status env id order notes payment_rejected =
    start_order_saga env id cancel_confirmed canceled notes
cancel_by_status env id order notes paid = start_order_saga env id cancel_confirmed canceled notes
cancel_by_status env id order notes _ = raise invalid_status_transition

unfoldable pub cancel_order : Env → String → Option String → Action StartResult
cancel_order env order_id notes = do
  order ← find_by_id env order_id
  lift (check_free order)
  cancel_by_status env order_id order notes order.status

unfoldable pub is_current_saga : Env → String → String → Action Bool
is_current_saga env order_id saga_id = do
  order ← find_by_id env order_id
  pure (can_process_saga order saga_id)

-- `HandleSucceeded` for the current saga of the order.
unfoldable pub succeed : Env → ServiceOrder → SucceededEvent → Action (Unit {0})
succeed env order event = do
  target ← lift (target_status_for_success order event.operation)
  now ← read_clock env
  moved ← lift (move_to order target now)
  conclude env (complete_saga moved (now 2)) order.status target event.operation event.saga_id none
      order.saga_notes

unfoldable pub handle_succeeded : Env → SucceededEvent → Action (Unit {0})
handle_succeeded env event = do
  order ← find_by_id env event.order_id
  if can_process_saga order event.saga_id then succeed env order event else pure tt

-- `HandleFailed` for the current saga of the order.
unfoldable pub give_up : Env → ServiceOrder → FailedEvent → Action (Unit {0})
give_up env order event = do
  now ← read_clock env
  conclude env (fail_saga order (now 0)) order.status order.status event.operation event.saga_id
      (some event.reason) none

unfoldable pub handle_failed : Env → FailedEvent → Action (Unit {0})
handle_failed env event = do
  order ← find_by_id env event.order_id
  if can_process_saga order event.saga_id then give_up env order event else pure tt

-- One round of the loop of `RecoverAwaitingSagas`, with the order's `CurrentSagaID`.
abbrev pub republish_as : Env → ServiceOrder → Option String → Action (Unit {0})
republish_as env order none = pure tt
republish_as env order (some saga_id) = do
  op ← lift (infer_operation order)
  publish_request env (record {
    saga_id = saga_id;
    order_id = order.id;
    operation = op;
    items = inventory_items order;
  })

unfoldable pub republish : Env → ServiceOrder → Action (Unit {0})
republish env order = republish_as env order order.current_saga_id

unfoldable pub republish_all : Env → List ServiceOrder → Action (Unit {0})
republish_all env [] = pure tt
republish_all env (order ∷ rest) = republish env order >> republish_all env rest

unfoldable pub recover_awaiting_sagas : Env → Action (Unit {0})
unfolding find_awaiting_inventory
recover_awaiting_sagas env = find_awaiting_inventory env >>= republish_all env

-- The two events that the inventory answers with.
pub data InventoryEvent : Type 0 where
  succeeded : SucceededEvent → InventoryEvent
  failed_event : FailedEvent → InventoryEvent

abbrev pub order_of : InventoryEvent → String
order_of (succeeded e) = e.order_id
order_of (failed_event e) = e.order_id

abbrev pub saga_of : InventoryEvent → String
saga_of (succeeded e) = e.saga_id
saga_of (failed_event e) = e.saga_id

-- The handler that the event's consumer calls.
abbrev pub handle_event : Env → InventoryEvent → Action (Unit {0})
handle_event env (succeeded e) = handle_succeeded env e
handle_event env (failed_event e) = handle_failed env e
