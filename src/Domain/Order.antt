-- ===== src/Domain/Order.antt =====
-- service_order.go: the service order. A method that changes the order returns the new order; an
-- error leaves it as it was, since every guard stands before the first write. `now k` is the k-th
-- reading of `time.Now` in a call.
pub mod Basket
pub mod Calls
pub mod Life
pub mod Stocked
pub mod Stocking
pub mod Totals
pub mod Baskets
pub mod Traces
pub mod Untouched
pub mod Contents
pub mod Refinement
use oficina_tech_ms_order_se.Shared.{
  Bool, List, Option, String, [], false, if◌then◌else◌, is_empty, is_some, none, not, select, some,
  str_eq, true, ◌&&◌, ◌||◌,
}
use oficina_tech_ms_order_se.Domain.Errors.{
  Result, fail_if, invalid_customer_id, invalid_payment_id, invalid_payment_preference,
  invalid_payment_url, invalid_saga_id, invalid_service_order_id, invalid_status,
  invalid_status_transition, invalid_vehicle_id, ok, ◌>>=◌, ◌>>◌,
}
use oficina_tech_ms_order_se.Domain.Item.{
  Clock, ServiceOrderItem, Time, is_deleted, product, type_eq,
}
use oficina_tech_ms_order_se.Domain.Status.{
  OrderStatus, authorization_denied, awaiting_payment, can_transition_to, canceled, completed,
  delivered, diagnosing, is_valid, paid, payment_rejected, received, status_eq,
}

-- `sagaStatus` is a string; `other_saga` is any text but the four constants.
pub data SagaStatus : Type 0 where
  idle awaiting_inventory saga_awaiting_payment failed : SagaStatus
  other_saga : String → SagaStatus

abbrev pub is_awaiting_inventory : SagaStatus → Bool
is_awaiting_inventory awaiting_inventory = true
is_awaiting_inventory _ = false

abbrev pub is_saga_awaiting_payment : SagaStatus → Bool
is_saga_awaiting_payment saga_awaiting_payment = true
is_saga_awaiting_payment _ = false

pub record ServiceOrder : Type 0 where
  pub id : String
  pub customer_id : String
  pub vehicle_id : String
  pub description : String
  pub status : OrderStatus
  pub saga_status : SagaStatus
  pub current_saga_id : Option String
  pub saga_target_status : Option OrderStatus
  pub saga_notes : Option String
  pub mp_preference_id : Option String
  pub mp_payment_id : Option String
  pub payment_url : Option String
  pub customer_email : String
  pub customer_name : String
  pub items : List ServiceOrderItem
  pub closed_at : Option Time
  pub created_at : Time
  pub updated_at : Time
  pub deleted_at : Option Time

unfoldable pub new_service_order : String → String → String → Time → Result ServiceOrder
new_service_order customer_id vehicle_id description now = do
  fail_if (is_empty customer_id) invalid_customer_id
  fail_if (is_empty vehicle_id) invalid_vehicle_id
  ok (record {
    id = "";
    customer_id = customer_id;
    vehicle_id = vehicle_id;
    description = description;
    status = received;
    saga_status = idle;
    current_saga_id = none;
    saga_target_status = none;
    saga_notes = none;
    mp_preference_id = none;
    mp_payment_id = none;
    payment_url = none;
    customer_email = "";
    customer_name = "";
    items = [];
    closed_at = none;
    created_at = now;
    updated_at = now;
    deleted_at = none;
  })

abbrev pub default_saga_status : SagaStatus → SagaStatus
default_saga_status (other_saga s) = if is_empty s then idle else other_saga s
default_saga_status s = s

-- `ReconstructServiceOrder`, given the field values as an order; the snapshot of the customer is
-- not among its arguments and is left empty.
unfoldable pub reconstruct_service_order : ServiceOrder → Result ServiceOrder
reconstruct_service_order r = do
  fail_if (is_empty r.id) invalid_service_order_id
  fail_if (is_empty r.customer_id) invalid_customer_id
  fail_if (is_empty r.vehicle_id) invalid_vehicle_id
  fail_if (not (is_valid r.status)) invalid_status
  ok (record r {
    saga_status = default_saga_status r.saga_status;
    customer_email = "";
    customer_name = "";
  })

-- The statuses at which `UpdateStatus` notes the time of closing.
abbrev pub closes : OrderStatus → Bool
closes s =
    status_eq s completed
    || status_eq s paid
    || status_eq s delivered
    || status_eq s canceled
    || status_eq s authorization_denied

unfoldable pub update_status : ServiceOrder → OrderStatus → Clock → Result ServiceOrder
update_status s new_status now = do
  fail_if (not (is_valid new_status)) invalid_status
  fail_if (not (can_transition_to s.status new_status)) invalid_status_transition
  ok (record s {
    status = new_status;
    updated_at = now 0;
    closed_at =
        if closes new_status && not (is_some s.closed_at) then some (now 1) else s.closed_at;
  })

unfoldable pub update_customer : ServiceOrder → String → Time → Result ServiceOrder
update_customer s customer_id now = do
  fail_if (is_empty customer_id) invalid_customer_id
  ok (record s { customer_id = customer_id; updated_at = now })

unfoldable pub update_vehicle : ServiceOrder → String → Time → Result ServiceOrder
update_vehicle s vehicle_id now = do
  fail_if (is_empty vehicle_id) invalid_vehicle_id
  ok (record s { vehicle_id = vehicle_id; updated_at = now })

unfoldable pub update_description : ServiceOrder → String → Time → ServiceOrder
update_description s description now = record s { description = description; updated_at = now }

unfoldable pub get_product_items : ServiceOrder → List ServiceOrderItem
get_product_items s = select (λ i. not (is_deleted i) && type_eq i.item_type product) s.items

unfoldable pub mark_order_deleted : ServiceOrder → Time → ServiceOrder
mark_order_deleted s now = record s { deleted_at = some now; updated_at = now }

unfoldable pub start_saga :
    ServiceOrder → String → OrderStatus → Option String → Time → Result ServiceOrder
start_saga s saga_id target_status notes now = do
  fail_if (is_empty saga_id) invalid_saga_id
  fail_if (not (is_valid target_status)) invalid_status
  ok (record s {
    saga_status = awaiting_inventory;
    current_saga_id = some saga_id;
    saga_target_status = some target_status;
    saga_notes = notes;
    updated_at = now;
  })

-- The five assignments that end a saga, with the status that is left.
abbrev end_saga : ServiceOrder → SagaStatus → Time → ServiceOrder
end_saga s saga_status now = record s {
  saga_status = saga_status;
  current_saga_id = none;
  saga_target_status = none;
  saga_notes = none;
  updated_at = now;
}

unfoldable pub complete_saga : ServiceOrder → Time → ServiceOrder
complete_saga s now = end_saga s idle now

unfoldable pub await_payment : ServiceOrder → String → String → Clock → Result ServiceOrder
unfolding update_status
await_payment s preference_id payment_url now = do
  fail_if (is_empty preference_id) invalid_payment_preference
  fail_if (is_empty payment_url) invalid_payment_url
  t ← update_status s awaiting_payment now
  ok (
      end_saga (record t { mp_preference_id = some preference_id; payment_url = some payment_url })
        saga_awaiting_payment (now 2))

unfoldable pub confirm_payment : ServiceOrder → String → Clock → Result ServiceOrder
unfolding update_status
confirm_payment s payment_id now = do
  fail_if (is_empty payment_id) invalid_payment_id
  t ← update_status s paid now
  ok (end_saga (record t { mp_payment_id = some payment_id }) idle (now 2))

unfoldable pub reject_payment : ServiceOrder → Clock → Result ServiceOrder
unfolding update_status
reject_payment s now = do t ← update_status s payment_rejected now; ok (end_saga t idle (now 2))

unfoldable pub cancel_after_refund : ServiceOrder → Clock → Result ServiceOrder
unfolding update_status
cancel_after_refund s now = do
  fail_if (not (status_eq s.status paid)) invalid_status_transition
  update_status s canceled now

unfoldable pub fail_saga : ServiceOrder → Time → ServiceOrder
fail_saga s now = end_saga s failed now

-- `s.currentSagaID != nil && *s.currentSagaID == sagaID`.
abbrev holds_text : Option String → String → Bool
holds_text none t = false
holds_text (some s) t = str_eq s t

abbrev pub can_process_saga : ServiceOrder → String → Bool
can_process_saga s saga_id =
    is_awaiting_inventory s.saga_status && holds_text s.current_saga_id saga_id

abbrev pub order_is_deleted : ServiceOrder → Bool
order_is_deleted s = is_some s.deleted_at

unfoldable pub is_closed : ServiceOrder → Bool
is_closed s =
    status_eq s.status paid
    || status_eq s.status delivered
    || status_eq s.status canceled
    || status_eq s.status authorization_denied

unfoldable pub can_modify_items : ServiceOrder → Bool
can_modify_items s = status_eq s.status received || status_eq s.status diagnosing

unfoldable pub set_order_id : ServiceOrder → String → Result ServiceOrder
set_order_id s id = do fail_if (is_empty id) invalid_service_order_id; ok (record s { id = id })

unfoldable pub set_customer_snapshot : ServiceOrder → String → String → Time → ServiceOrder
set_customer_snapshot s email name now = record s {
  customer_email = email;
  customer_name = name;
  updated_at = now;
}
