-- ===== src/Examples/Readings.antt =====
-- The theorems on queries, stored rows and the whole service at concrete orders.
use oficina_tech_ms_order_se.Shared.{
  List, String, [], false, if◌then◌else◌, is_empty, none, not, refl, select, true, ◌∷◌, ◌≡◌,
}
use oficina_tech_ms_order_se.Domain.Errors.{err, external, ok}
use oficina_tech_ms_order_se.Domain.Order.{ServiceOrder, idle, order_is_deleted}
use oficina_tech_ms_order_se.Domain.Status.{paid}
use oficina_tech_ms_order_se.Examples.Data.{brake_pads, calm, diagnosed, order_with, world_of}
use oficina_tech_ms_order_se.Persistence.Model.{
  ServiceOrderModel, UuidOps, from_domain, from_domain_item, item_row, to_domain_with_items,
}
use oficina_tech_ms_order_se.Persistence.RoundTrip.{
  AreRows, IsKey, IsStorable, from_domain-to_domain_with_items, no_rows, one_more, time_read,
}
use oficina_tech_ms_order_se.Platform.Ports.{Env}
use oficina_tech_ms_order_se.Queries.Answer.{IsAnswer, filtered_rows-IsAnswer}
use oficina_tech_ms_order_se.Queries.Listed.{Lists, get_all_service_orders-Lists}
use oficina_tech_ms_order_se.Queries.Reading.{
  ListInput, OrderView, filters_of, get_all_service_orders,
}
use oficina_tech_ms_order_se.Queries.Selection.{RepositoryFilters, filtered_rows}

abbrev only_open : RepositoryFilters
only_open = record {
  customer_id = none;
  status = none;
  sort_by_status = true;
  hide_completed = true;
}

abbrev shelf : List ServiceOrder
shelf = order_with paid idle none none ∷ diagnosed ∷ []

filtered_rows-IsAnswer_example : IsAnswer only_open shelf (filtered_rows only_open shelf)
filtered_rows-IsAnswer_example = filtered_rows-IsAnswer only_open shelf

-- The services of customers and vehicles are down.
abbrev alone : Env
alone = record calm {
  customer = λ t id. err (external "timeout");
  vehicle = λ t id. err (external "timeout");
}

abbrev newest : ListInput
newest = record {
  customer_id = none;
  status = none;
  sort_by_status = false;
  hide_completed = false;
}

get_all_service_orders-Lists_example :
    (views : List OrderView) × ((get_all_service_orders alone newest (world_of diagnosed)).0
      ≡ ok views)
    × Lists
        (select
          (λ s. not (order_is_deleted s))
          (filtered_rows (filters_of newest none) (diagnosed ∷ [])))
        views
get_all_service_orders-Lists_example =
    get_all_service_orders-Lists alone newest (world_of diagnosed) none refl refl

-- Ids that are texts, and are printed as they are.
abbrev plain_ids : UuidOps String
plain_ids = record {
  parse = λ t. if is_empty t then err (external "invalid UUID length") else ok t;
  print = λ t. t;
  nil = "00000000-0000-0000-0000-000000000000";
}

abbrev key : (t : String) → is_empty t ≡ false → IsKey plain_ids t
key t h = record { given = h; uuid = t; parsed = rw h refl; printed = refl }

diagnosed-IsStorable : IsStorable plain_ids diagnosed
diagnosed-IsStorable = record {
  id = key "order-1" refl;
  customer_id = key "customer-1" refl;
  vehicle_id = key "vehicle-1" refl;
  current_saga_id = tt;
  status = refl;
  target = tt;
  saga_status = refl;
}

pads_stored :
    AreRows plain_ids
      (brake_pads ∷ [])
      (item_row plain_ids "item-1" "order-1" "product-7" none brake_pads ∷ [])
unfolding from_domain_item
pads_stored =
    one_more
      (record {
        id = key "item-1" refl;
        service_order_id = key "order-1" refl;
        reference_id = key "product-7" refl;
        history_id = tt;
        item_type = refl;
        valid = refl;
      })
      refl no_rows

from_domain-to_domain_with_items_example :
    (m : ServiceOrderModel String) × (from_domain plain_ids diagnosed ≡ ok m)
    × (to_domain_with_items plain_ids m
          (item_row plain_ids "item-1" "order-1" "product-7" none brake_pads ∷ [])
          900
        ≡ ok (record diagnosed { updated_at = time_read plain_ids diagnosed 900 }))
from_domain-to_domain_with_items_example =
    from_domain-to_domain_with_items plain_ids diagnosed _ 900 diagnosed-IsStorable pads_stored
