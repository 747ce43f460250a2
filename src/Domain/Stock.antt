-- ===== src/Domain/Stock.antt =====
-- inventory_operation_type.go and shared/dto/stock_operation_dto.go: the operations that are asked
-- of the inventory, and which one a change of status asks for.
use oficina_tech_ms_order_se.Shared.{
  Bool, Option, String, false, if◌then◌else◌, none, some, str_eq, true,
}
use oficina_tech_ms_order_se.Domain.Status.{
  OrderStatus, authorization_denied, authorized, awaiting_payment, canceled, completed, diagnosing,
  in_progress, paid, pending_authorization, received, status_eq,
}

-- `StockOperationType` is a string; `no_operation` is "NONE", `other_operation` any other text.
pub data StockOperation : Type 0 where
  reserve reserved_decrease cancel_reserved cancel_confirmed : StockOperation
  available_decrease increase no_operation : StockOperation
  other_operation : String → StockOperation

abbrev pub is_no_operation : StockOperation → Bool
is_no_operation no_operation = true
is_no_operation (other_operation s) = str_eq s "NONE"
is_no_operation _ = false

-- The `switch oldStatus` of a cancellation; `none` falls out of the switch.
abbrev cancellation_operation : OrderStatus → Option StockOperation
cancellation_operation pending_authorization = some cancel_reserved
cancellation_operation in_progress = some cancel_reserved
cancellation_operation authorized = some cancel_reserved
cancellation_operation diagnosing = some cancel_reserved
cancellation_operation received = some cancel_reserved
cancellation_operation completed = some cancel_confirmed
cancellation_operation awaiting_payment = some cancel_confirmed
cancellation_operation paid = some cancel_confirmed
cancellation_operation _ = none

-- What follows the test for CANCELED.
abbrev after_cancellation : OrderStatus → StockOperation
after_cancellation new_status =
    if status_eq new_status authorization_denied then cancel_reserved else no_operation

unfoldable pub determine_inventory_operation : OrderStatus → OrderStatus → StockOperation
determine_inventory_operation old_status new_status =
    if status_eq new_status pending_authorization
    then reserve
    else if status_eq new_status completed
    then reserved_decrease
    else if status_eq new_status canceled
    then elim (cancellation_operation old_status) [
      | some operation ↦ operation
      | none ↦ after_cancellation new_status
    ]
    else after_cancellation new_status

-- `dto.StockOperationType(text)`.
unfoldable pub operation_of : String → StockOperation
operation_of s =
    if str_eq s "RESERVE"
    then reserve
    else if str_eq s "RESERVED_DECREASE"
    then reserved_decrease
    else if str_eq s "CANCEL_RESERVED"
    then cancel_reserved
    else if str_eq s "CANCEL_CONFIRMED"
    then cancel_confirmed
    else if str_eq s "AVAILABLE_DECREASE"
    then available_decrease
    else if str_eq s "INCREASE"
    then increase
    else if str_eq s "NONE"
    then no_operation
    else other_operation s
