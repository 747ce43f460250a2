-- ===== src/Persistence/Model.antt =====
-- service_order_model.go and service_order_item_model.go. The type `uuid.UUID` of the library and its
-- `Parse` and `String` are parameters.
use oficina_tech_ms_order_se.Shared.{
  List, Option, String, [], if◌then◌else◌, is_empty, is_some, none, not, some, str_eq, ℕ, ◌||◌, ◌∷◌,
}
use oficina_tech_ms_order_se.Domain.Errors.{
  ◌>>=◌, ◌>>◌, Result, err, fail_if, invalid_item_type, ok,
}
use oficina_tech_ms_order_se.Domain.History.{type_name}
use oficina_tech_ms_order_se.Domain.Item.{ServiceOrderItem, Time, type_is_valid}
use oficina_tech_ms_order_se.Domain.Order.{
  SagaStatus, ServiceOrder, awaiting_inventory, failed, idle, other_saga, reconstruct_service_order,
  saga_awaiting_payment, set_customer_snapshot,
}
use oficina_tech_ms_order_se.Domain.Status.{OrderStatus, new_order_status, to_string}
use oficina_tech_ms_order_se.UseCases.ItemInputs.{item_type_of}

pub record UuidOps (Uuid : Type 0) : Type 0 where
  pub parse : String → Result Uuid
  pub print : Uuid → String
  -- The zero value.
  pub nil : Uuid

-- A row of `service_orders`; its items are rows of their own. `gorm.DeletedAt` is an optional time.
-- The columns `mp_order_status` and `payment_rejection_reason` are written and read by no code.
pub record ServiceOrderModel (Uuid : Type 0) : Type 0 where
  pub id : Uuid
  pub customer_id : Uuid
  pub vehicle_id : Uuid
  pub description : String
  pub status : String
  pub saga_status : String
  pub current_saga_id : Option Uuid
  pub saga_target_status : Option String
  pub saga_notes : Option String
  pub mp_order_id : Option String
  pub mp_payment_id : Option String
  pub payment_url : Option String
  pub customer_email : Option String
  pub customer_name : Option String
  pub closed_at : Option Time
  pub created_at : Time
  pub updated_at : Time
  pub deleted_at : Option Time

pub record ServiceOrderItemModel (Uuid : Type 0) : Type 0 where
  pub id : Uuid
  pub service_order_id : Uuid
  pub history_id : Option Uuid
  pub item_type : String
  pub reference_id : Uuid
  pub name : String
  pub quantity : ℕ
  pub unit_price : ℕ
  pub created_at : Time
  pub updated_at : Time
  pub deleted_at : Option Time

-- The texts of the saga statuses.
abbrev pub saga_text : SagaStatus → String
saga_text idle = "IDLE"
saga_text awaiting_inventory = "AWAITING_INVENTORY"
saga_text saga_awaiting_payment = "AWAITING_PAYMENT"
saga_text failed = "FAILED"
saga_text (other_saga s) = s

abbrev pub saga_status_of : String → SagaStatus
saga_status_of s =
    if str_eq s "IDLE"
    then idle
    else if str_eq s "AWAITING_INVENTORY"
    then awaiting_inventory
    else if str_eq s "AWAITING_PAYMENT"
    then saga_awaiting_payment
    else if str_eq s "FAILED"
    then failed
    else other_saga s

abbrev pub order_status_string_ptr : Option OrderStatus → Option String
order_status_string_ptr none = none
order_status_string_ptr (some s) = some (to_string s)

unfoldable pub order_status_ptr : Option String → Result (Option OrderStatus)
unfolding new_order_status
order_status_ptr none = ok none
order_status_ptr (some value) =
    if is_empty value then ok none else (new_order_status value >>= λ s. ok (some s))

-- A snapshot field is stored when it is not empty.
abbrev pub unless_empty : String → Option String
unless_empty s = if is_empty s then none else some s

abbrev pub ptr_text : Option String → String
ptr_text none = ""
ptr_text (some s) = s

module _ {Uuid : Type 0} (ops : UuidOps Uuid) where
  abbrev pub uuid_ptr_string : Option Uuid → Option String
  uuid_ptr_string none = none
  uuid_ptr_string (some u) = some (ops.print u)

  -- A text that is no UUID is dropped.
  abbrev pub parse_uuid_ptr : Option String → Option Uuid
  parse_uuid_ptr none = none
  parse_uuid_ptr (some s) =
      if is_empty s then none else elim (ops.parse s) [ ok u ↦ some u | err _ ↦ none ]

  -- The id of a new order or item is the zero value, which the repository replaces.
  abbrev pub parse_own_id : String → Result Uuid
  parse_own_id id = if is_empty id then ok ops.nil else ops.parse id

  -- The row of an order, with its parsed ids.
  abbrev pub order_row : Uuid → Uuid → Uuid → ServiceOrder → ServiceOrderModel Uuid
  order_row id customer_id vehicle_id order = record {
    id = id;
    customer_id = customer_id;
    vehicle_id = vehicle_id;
    description = order.description;
    status = to_string order.status;
    saga_status = saga_text order.saga_status;
    current_saga_id = parse_uuid_ptr order.current_saga_id;
    saga_target_status = order_status_string_ptr order.saga_target_status;
    saga_notes = order.saga_notes;
    mp_order_id = order.mp_preference_id;
    mp_payment_id = order.mp_payment_id;
    payment_url = order.payment_url;
    customer_email = unless_empty order.customer_email;
    customer_name = unless_empty order.customer_name;
    closed_at = order.closed_at;
    created_at = order.created_at;
    updated_at = order.updated_at;
    deleted_at = order.deleted_at;
  }

  unfoldable pub from_domain : ServiceOrder → Result (ServiceOrderModel Uuid)
  from_domain order = do
    id ← parse_own_id order.id
    customer_id ← ops.parse order.customer_id
    vehicle_id ← ops.parse order.vehicle_id
    ok (order_row id customer_id vehicle_id order)

  abbrev pub parse_history_id : Option String → Result (Option Uuid)
  parse_history_id none = ok none
  parse_history_id (some id) = ops.parse id >>= λ u. ok (some u)

  -- The row of an item, with its parsed ids.
  abbrev pub item_row :
      Uuid → Uuid → Uuid → Option Uuid → ServiceOrderItem → ServiceOrderItemModel Uuid
  item_row id service_order_id reference_id history_id item = record {
    id = id;
    service_order_id = service_order_id;
    history_id = history_id;
    item_type = type_name item.item_type;
    reference_id = reference_id;
    name = item.name;
    quantity = item.quantity;
    unit_price = item.unit_price;
    created_at = item.created_at;
    updated_at = item.updated_at;
    deleted_at = item.deleted_at;
  }

  unfoldable pub from_domain_item : ServiceOrderItem → Result (ServiceOrderItemModel Uuid)
  from_domain_item item = do
    id ← parse_own_id item.id
    service_order_id ← ops.parse item.service_order_id
    reference_id ← ops.parse item.reference_id
    history_id ← parse_history_id item.history_id
    ok (item_row id service_order_id reference_id history_id item)

  unfoldable pub item_to_domain : ServiceOrderItemModel Uuid → Result ServiceOrderItem
  item_to_domain m = do
    fail_if (not (type_is_valid (item_type_of m.item_type))) invalid_item_type
    ok (record {
      id = ops.print m.id;
      service_order_id = ops.print m.service_order_id;
      history_id = uuid_ptr_string m.history_id;
      item_type = item_type_of m.item_type;
      reference_id = ops.print m.reference_id;
      name = m.name;
      quantity = m.quantity;
      unit_price = m.unit_price;
      created_at = m.created_at;
      updated_at = m.updated_at;
      deleted_at = m.deleted_at;
    })

  unfoldable pub items_to_domain :
      List (ServiceOrderItemModel Uuid) → Result (List ServiceOrderItem)
  unfolding item_to_domain
  items_to_domain [] = ok []
  items_to_domain (m ∷ rest) = do
    item ← item_to_domain m
    items ← items_to_domain rest
    ok (item ∷ items)

  -- The arguments of `ReconstructServiceOrder`.
  abbrev pub fields_of :
      ServiceOrderModel Uuid
      → OrderStatus
      → Option OrderStatus
      → List ServiceOrderItem
      → ServiceOrder
  fields_of m status target items = record {
    id = ops.print m.id;
    customer_id = ops.print m.customer_id;
    vehicle_id = ops.print m.vehicle_id;
    description = m.description;
    status = status;
    saga_status = saga_status_of m.saga_status;
    current_saga_id = uuid_ptr_string m.current_saga_id;
    saga_target_status = target;
    saga_notes = m.saga_notes;
    mp_preference_id = m.mp_order_id;
    mp_payment_id = m.mp_payment_id;
    payment_url = m.payment_url;
    customer_email = "";
    customer_name = "";
    items = items;
    closed_at = m.closed_at;
    created_at = m.created_at;
    updated_at = m.updated_at;
    deleted_at = m.deleted_at;
  }

  -- The snapshot is set by the method that also sets the time of the last change.
  unfoldable pub with_snapshot : ServiceOrderModel Uuid → Time → ServiceOrder → ServiceOrder
  unfolding set_customer_snapshot
  with_snapshot m now s =
      if is_some m.customer_email || is_some m.customer_name
      then set_customer_snapshot s (ptr_text m.customer_email) (ptr_text m.customer_name) now
      else s

  unfoldable pub to_domain_with_items :
      ServiceOrderModel Uuid → List (ServiceOrderItemModel Uuid) → Time → Result ServiceOrder
  unfolding order_status_ptr items_to_domain reconstruct_service_order with_snapshot
      new_order_status
  to_domain_with_items m rows now = do
    status ← new_order_status m.status
    target ← order_status_ptr m.saga_target_status
    items ← items_to_domain rows
    order ← reconstruct_service_order (fields_of m status target items)
    ok (with_snapshot m now order)
