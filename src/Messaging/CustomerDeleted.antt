-- ===== src/Messaging/CustomerDeleted.antt =====
-- customer_deleted.go: the open orders of a customer that was deleted are deleted, one by one, up to
-- the first deletion that fails; then the message leaves the queue.
use oficina_tech_ms_order_se.Shared.{Bool, List, [], false, if◌then◌else◌, some, true, ◌∷◌}
use oficina_tech_ms_order_se.Domain.Order.{ServiceOrder, is_awaiting_inventory}
use oficina_tech_ms_order_se.Domain.Status.{
  OrderStatus, authorized, diagnosing, in_progress, pending_authorization, received,
}
use oficina_tech_ms_order_se.Messaging.Consumers.{delete_message}
use oficina_tech_ms_order_se.Messaging.Decoding.{Message, Wire, decode_customer_deleted}
use oficina_tech_ms_order_se.Platform.Monad.{◌>>=◌, ◌>>◌, Action, lift, pure}
use oficina_tech_ms_order_se.Platform.Ports.{Env}
use oficina_tech_ms_order_se.Queries.Selection.{find_by_customer_id}
use oficina_tech_ms_order_se.UseCases.Deletion.{delete_service_order}

-- `isOpenForCustomerDeletion`.
unfoldable pub is_open_for_customer_deletion : OrderStatus → Bool
is_open_for_customer_deletion received = true
is_open_for_customer_deletion diagnosing = true
is_open_for_customer_deletion pending_authorization = true
is_open_for_customer_deletion authorized = true
is_open_for_customer_deletion in_progress = true
is_open_for_customer_deletion _ = false

-- One turn of the loop.
unfoldable pub delete_if_open : Env → ServiceOrder → Action (Unit {0})
unfolding is_open_for_customer_deletion delete_service_order
delete_if_open env order =
    if is_awaiting_inventory order.saga_status
    then pure tt
    else (if is_open_for_customer_deletion order.status
        then (delete_service_order env order.id (some "Cliente removido") >>= λ _. pure tt)
        else pure tt)

unfoldable pub delete_open_orders : Env → List ServiceOrder → Action (Unit {0})
unfolding delete_if_open
delete_open_orders env [] = pure tt
delete_open_orders env (order ∷ rest) = do delete_if_open env order; delete_open_orders env rest

unfoldable pub handle_customer_deleted : Wire → Env → Message → Action (Unit {0})
unfolding decode_customer_deleted find_by_customer_id delete_open_orders
handle_customer_deleted wire env message = do
  event ← lift (decode_customer_deleted wire message)
  orders ← find_by_customer_id env event.customer_id
  delete_open_orders env orders
  delete_message wire message
