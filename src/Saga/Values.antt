-- ===== src/Saga/Values.antt =====
-- saga_orchestrator.go: the values of the saga. Its events and results, the operation that is
-- inferred from an order, the status that a success leads to, and the metadata of its histories.
use oficina_tech_ms_order_se.Shared.{
  Bool, List, Option, String, if◌then◌else◌, is_empty, map, none, some, ◌||◌,
}
use oficina_tech_ms_order_se.Domain.Errors.{
  Result, awaiting_without_target, cannot_infer_operation, err, ok, unsupported_saga_operation,
}
use oficina_tech_ms_order_se.Domain.History.{
  Metadata, Snapshot, SnapshotItem, build_status_only_metadata, filter_active_items, put, snapshot,
  stock, text,
}
use oficina_tech_ms_order_se.Domain.Item.{ServiceOrderItem, Time, subtotal}
use oficina_tech_ms_order_se.Domain.Order.{ServiceOrder, get_product_items}
use oficina_tech_ms_order_se.Domain.Order.Basket.{total_amount}
use oficina_tech_ms_order_se.Domain.Status.{
  OrderStatus, authorization_denied, canceled, completed, paid, pending_authorization, status_eq,
  to_string,
}
use oficina_tech_ms_order_se.Domain.Stock.{
  StockOperation, cancel_confirmed, cancel_reserved, reserve, reserved_decrease,
}
use oficina_tech_ms_order_se.Platform.Monad.{InventoryItem}

-- `StartResult`.
pub record StartResult : Type 0 where
  pub order : ServiceOrder
  pub saga_id : String
  pub async : Bool

-- `OrderInventoryOperationSucceeded` and `OrderInventoryOperationFailed` (messaging/events).
pub record SucceededEvent : Type 0 where
  pub saga_id : String
  pub order_id : String
  pub operation : StockOperation

pub record FailedEvent : Type 0 where
  pub saga_id : String
  pub order_id : String
  pub operation : StockOperation
  pub reason : String

unfoldable pub inventory_items : ServiceOrder → List InventoryItem
unfolding get_product_items
inventory_items order =
    map (λ i. record { product_id = i.reference_id; item_quantity = i.quantity })
      (get_product_items order)

unfoldable pub infer_operation : ServiceOrder → Result StockOperation
infer_operation order = elim order.saga_target_status [
  | none ↦ err awaiting_without_target
  | some target ↦
      if status_eq target pending_authorization
      then ok reserve
      else if status_eq target completed
      then ok reserved_decrease
      else if status_eq target authorization_denied
      then ok cancel_reserved
      else if status_eq target canceled
      then if status_eq order.status completed || status_eq order.status paid
        then ok cancel_confirmed
        else ok cancel_reserved
      else err cannot_infer_operation
]

-- The `switch operation` of `targetStatusForSuccess`.
abbrev status_for_operation : StockOperation → Result OrderStatus
status_for_operation reserve = ok pending_authorization
status_for_operation reserved_decrease = ok completed
status_for_operation cancel_reserved = ok canceled
status_for_operation cancel_confirmed = ok canceled
status_for_operation _ = err unsupported_saga_operation

unfoldable pub target_status_for_success : ServiceOrder → StockOperation → Result OrderStatus
target_status_for_success order operation = elim order.saga_target_status [
  | some target ↦ ok target
  | none ↦ status_for_operation operation
]

snapshot_item : ServiceOrderItem → SnapshotItem
snapshot_item i = record {
  id = i.id;
  item_type = i.item_type;
  reference_id = i.reference_id;
  name = i.name;
  quantity = i.quantity;
  unit_price = i.unit_price;
  item_subtotal = subtotal i;
}

unfoldable pub snapshot_of : ServiceOrder → Time → Snapshot
unfolding snapshot_item total_amount to_string
snapshot_of order now = record {
  order_id = order.id;
  customer_id = order.customer_id;
  vehicle_id = order.vehicle_id;
  status = to_string order.status;
  total = total_amount order;
  items = map snapshot_item (filter_active_items order.items);
  captured_at = now;
}

-- `if value != nil && *value != "" { metadata[key] = *value }`.
abbrev pub put_present : String → Option String → Metadata → Metadata
put_present key none metadata = metadata
put_present key (some value) metadata =
    if is_empty value then metadata else put key (text value) metadata

unfoldable pub saga_metadata :
    ServiceOrder
    → OrderStatus
    → OrderStatus
    → StockOperation
    → String
    → Option String
    → Option String
    → Time
    → Metadata
unfolding build_status_only_metadata put snapshot_of
saga_metadata order old_status new_status op saga_id failure_reason notes now =
    let changed = put "operation" (stock op) (build_status_only_metadata old_status new_status) in
    let identified = put_present "saga_id" (some saga_id) changed in
    let reasoned = put_present "failure_reason" failure_reason identified in
    let noted = put_present "notes" notes reasoned in
    put "snapshot" (snapshot (snapshot_of order now)) noted
