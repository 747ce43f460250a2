-- ===== src/Examples/Data.antt =====
-- Concrete orders and items, and an environment and a queue in which nothing fails.
use oficina_tech_ms_order_se.Shared.{
  Option, String, [], ◌∷◌, none, some, true, ◌+◌, if◌then◌else◌, ◌==◌,
}
use oficina_tech_ms_order_se.Domain.Errors.{ok}
use oficina_tech_ms_order_se.Domain.Item.{Clock, ServiceOrderItem, product}
use oficina_tech_ms_order_se.Domain.Order.{ServiceOrder, awaiting_inventory, idle, SagaStatus}
use oficina_tech_ms_order_se.Domain.Status.{OrderStatus, diagnosing, pending_authorization}
use oficina_tech_ms_order_se.Messaging.Decoding.{RawEvent, Wire}
use oficina_tech_ms_order_se.Platform.Monad.{World}
use oficina_tech_ms_order_se.Platform.Ports.{Env}

abbrev pub noon : Clock
noon k = 720 + k

-- Two pads at 45.90.
abbrev pub brake_pads : ServiceOrderItem
brake_pads = record {
  id = "item-1";
  service_order_id = "order-1";
  history_id = none;
  item_type = product;
  reference_id = "product-7";
  name = "Brake pads";
  quantity = 2;
  unit_price = 4590;
  created_at = 700;
  updated_at = 700;
  deleted_at = none;
}

-- An order of the given state with one item.
abbrev pub order_with : OrderStatus → SagaStatus → Option String → Option OrderStatus → ServiceOrder
order_with status saga_status saga_id target = record {
  id = "order-1";
  customer_id = "customer-1";
  vehicle_id = "vehicle-1";
  description = "Squeaking brakes";
  status = status;
  saga_status = saga_status;
  current_saga_id = saga_id;
  saga_target_status = target;
  saga_notes = none;
  mp_preference_id = none;
  mp_payment_id = none;
  payment_url = none;
  customer_email = "ana@example.com";
  customer_name = "Ana";
  items = brake_pads ∷ [];
  closed_at = none;
  created_at = 700;
  updated_at = 700;
  deleted_at = none;
}

-- The order in diagnosis, and the same order while it waits for the reservation of its items.
abbrev pub diagnosed : ServiceOrder
diagnosed = order_with diagnosing idle none none

abbrev pub waiting : ServiceOrder
waiting = order_with diagnosing awaiting_inventory (some "saga-1") (some pending_authorization)

abbrev pub calm : Env
calm = record {
  notifies = true;
  now = λ t k. 720 + t + k;
  new_uuid = λ t. "saga-2";
  item_uuid = λ t k. if k == 0 then "item-2" else "item-3";
  find_error = λ t id. none;
  query_error = λ t. none;
  save_error = λ t s. none;
  history_error = λ t h. none;
  publish_error = λ t r. none;
  customer =
      λ t id. ok (record { id = id; name = "Ana"; email = "ana@example.com"; phone = "555" });
  vehicle = λ t id. ok (record { id = id; customer_id = "customer-1" });
  catalog_product = λ t id. ok (record { name = "Brake pads"; price = 4590 });
  catalog_service = λ t id. ok (record { name = "Brake check"; price = 9000 });
  email_error = λ t m. none;
  mp_order = λ t c. ok (record { id = "mp-1"; redirect_url = "https://pay.example/mp-1" });
  mp_payment = λ t id.
      ok (record {
        id = id;
        status = "approved";
        status_detail = "";
        external_reference = "order-1";
      });
}

abbrev pub world_of : ServiceOrder → World
world_of s = record {
  tick = 0;
  orders = s ∷ [];
  deleted_items = [];
  histories = [];
  requests = [];
  emails = [];
  payment_calls = [];
}

abbrev raw_of : String → RawEvent
raw_of name = record {
  event = name;
  saga_id = "saga-1";
  order_id = "order-1";
  operation = "RESERVE";
  reason = "Out of stock";
  occurred_at = "2024-01-01T00:00:00Z";
}

-- The body of a message is the name of its event here.
abbrev pub plain_wire : Wire
plain_wire = record {
  unmarshal = λ body. ok (raw_of body);
  unmarshal_customer = λ body. ok (record {
    event = "CustomerDeleted";
    customer_id = body;
    occurred_at = "2026-01-01T00:00:00Z";
  });
  is_time = λ t. true;
  delete_error = λ tick receipt. none;
}
