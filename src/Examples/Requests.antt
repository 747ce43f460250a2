-- ===== src/Examples/Requests.antt =====
-- The theorems on the creation, the update and the storing of orders at concrete orders.
use oficina_tech_ms_order_se.Shared.{List, [], none, refl, ◌∷◌, ◌≡◌, some}
use oficina_tech_ms_order_se.Domain.Errors.{ok, cannot_modify_items_after_pending, err, external}
use oficina_tech_ms_order_se.Domain.History.{
  build_history_metadata, build_history_metadata_with_items, build_item_signature,
  capture_order_state, has_items_changed, new_history, note_change, put, rune_text, same_signature,
  signed_in, some_unsigned,
}
use oficina_tech_ms_order_se.Domain.Item.{
  new_service_order_item, service, set_id, update_quantity, mark_as_deleted, set_history_id,
  ServiceOrderItem,
}
use oficina_tech_ms_order_se.Domain.Order.{
  ServiceOrder, can_modify_items, idle, is_closed, new_service_order, set_customer_snapshot,
  set_order_id, reconstruct_service_order, update_description,
}
use oficina_tech_ms_order_se.Domain.Order.Basket.{add_item, modify_first, remove_item}
use oficina_tech_ms_order_se.Domain.Status.{received, in_progress}
use oficina_tech_ms_order_se.Examples.Data.{calm, order_with, diagnosed, world_of, brake_pads}
use oficina_tech_ms_order_se.Platform.Monad.{◌>>=◌, World}
use oficina_tech_ms_order_se.Platform.Ports.{Env}
use oficina_tech_ms_order_se.Platform.Silent.{tick_to}
use oficina_tech_ms_order_se.Platform.Table.{find_row}
use oficina_tech_ms_order_se.UseCases.Created.{
  Created, create_service_order-Created, create_service_order-err,
}
use oficina_tech_ms_order_se.UseCases.Creation.{
  CreationInput, check_vehicle, create_service_order, fill_new,
}
use oficina_tech_ms_order_se.UseCases.ItemInputs.{
  ItemInput, add_items, build_item, fetch_item_details, validate_and_build_items,
}
use oficina_tech_ms_order_se.UseCases.ItemLists.{identify_items, item_at, link_items}
use oficina_tech_ms_order_se.UseCases.Saving.{identify_new, identify_order, save_with_items}
use oficina_tech_ms_order_se.UseCases.Update.{
  UpdateInput, check_ownership, remove_items, replace_items, save_history, store_history,
  update_service_order, validate_and_update_customer_vehicle,
}
use oficina_tech_ms_order_se.UseCases.UpdateEffects.{update_service_order-err}
use oficina_tech_ms_order_se.UseCases.Updated.{Updated, update_service_order-Updated}

abbrev empty_shop : World
empty_shop = record {
  tick = 0;
  orders = [];
  deleted_items = [];
  histories = [];
  requests = [];
  emails = [];
  payment_calls = [];
}

-- Two pads and a third one, which is merged, and a service.
abbrev parts : List ItemInput
parts =
    record { item_type = "PRODUCT"; reference_id = "product-7"; quantity = 2 }
    ∷ record { item_type = "PRODUCT"; reference_id = "product-7"; quantity = 1 }
    ∷ record { item_type = "SERVICE"; reference_id = "service-1"; quantity = 1 }
    ∷ []

abbrev request : CreationInput
request = record {
  customer_id = "customer-1";
  vehicle_id = "vehicle-1";
  description = "Squeaking brakes";
  items = parts;
}

abbrev three_pads : ServiceOrderItem
three_pads = record brake_pads {
  id = "item-2";
  service_order_id = "saga-2";
  quantity = 3;
  created_at = 723;
  updated_at = 730;
}

abbrev made : ServiceOrder
made = record (order_with received idle none none) {
  id = "saga-2";
  items =
      three_pads
      ∷ record {
        id = "item-3";
        service_order_id = "saga-2";
        history_id = none;
        item_type = service;
        reference_id = "service-1";
        name = "Brake check";
        quantity = 1;
        unit_price = 9000;
        created_at = 727;
        updated_at = 727;
        deleted_at = none;
      }
      ∷ [];
  created_at = 728;
  updated_at = 732;
}

order_created : (create_service_order calm request empty_shop).0 ≡ ok made
unfolding create_service_order ◌>>=◌ check_vehicle validate_and_build_items build_item
    fetch_item_details new_service_order_item fill_new new_service_order set_customer_snapshot
    add_items add_item modify_first update_quantity save_with_items identify_order identify_new
    set_order_id identify_items set_id find_row is_closed can_modify_items
order_created = refl

create_service_order-Created_example :
    Created calm request empty_shop made (create_service_order calm request empty_shop).1
create_service_order-Created_example =
    create_service_order-Created calm request empty_shop made order_created

-- The catalogue is down.
abbrev without_catalog : Env
without_catalog = record calm { catalog_product = λ t id. err (external "timeout") }

creation_failed :
    (create_service_order without_catalog request empty_shop).0 ≡ err (external "timeout")
unfolding create_service_order ◌>>=◌ check_vehicle validate_and_build_items build_item
    fetch_item_details
creation_failed = refl

create_service_order-err_example :
    (create_service_order without_catalog request empty_shop).1
    ≡ tick_to (create_service_order without_catalog request empty_shop).1.tick empty_shop
create_service_order-err_example =
    create_service_order-err without_catalog request empty_shop (external "timeout") creation_failed

-- The pads are replaced by a service.
abbrev change_of_items : UpdateInput
change_of_items = record {
  id = "order-1";
  customer_id = none;
  vehicle_id = none;
  description = some "Noise in front";
  items = some (record { item_type = "SERVICE"; reference_id = "service-1"; quantity = 1 } ∷ []);
}

abbrev removed_pads : ServiceOrderItem
removed_pads = record brake_pads {
  history_id = some "saga-2";
  deleted_at = some 725;
  updated_at = 730;
}

abbrev changed_order : ServiceOrder
changed_order = record diagnosed {
  description = "Noise in front";
  items =
      removed_pads
      ∷ record {
        id = "item-3";
        service_order_id = "order-1";
        history_id = none;
        item_type = service;
        reference_id = "service-1";
        name = "Brake check";
        quantity = 1;
        unit_price = 9000;
        created_at = 724;
        updated_at = 724;
        deleted_at = none;
      }
      ∷ [];
  updated_at = 727;
}

order_updated :
    (update_service_order calm change_of_items (world_of diagnosed)).0 ≡ ok changed_order
unfolding update_service_order ◌>>=◌ find_row validate_and_update_customer_vehicle check_ownership
    update_description replace_items can_modify_items validate_and_build_items build_item
    fetch_item_details new_service_order_item remove_items item_at remove_item is_closed
    modify_first mark_as_deleted add_items add_item update_quantity save_history capture_order_state
    reconstruct_service_order new_history store_history link_items set_history_id save_with_items
    identify_order identify_items set_id build_history_metadata_with_items build_history_metadata
    note_change put has_items_changed some_unsigned signed_in same_signature build_item_signature
    rune_text
order_updated = refl

update_service_order-Updated_example :
    (s row : ServiceOrder) × Updated calm change_of_items s
      (world_of diagnosed)
      changed_order
      row
      (update_service_order calm change_of_items (world_of diagnosed)).1
update_service_order-Updated_example =
    update_service_order-Updated calm change_of_items (world_of diagnosed) changed_order
      order_updated

abbrev in_work : ServiceOrder
in_work = order_with in_progress idle none none

update_refused :
    (update_service_order calm change_of_items (world_of in_work)).0
    ≡ err cannot_modify_items_after_pending
unfolding update_service_order ◌>>=◌ find_row validate_and_update_customer_vehicle check_ownership
    update_description replace_items can_modify_items
update_refused = refl

update_service_order-err_example :
    (update_service_order calm change_of_items (world_of in_work)).1.orders ≡ in_work ∷ []
update_service_order-err_example =
    update_service_order-err calm change_of_items (world_of in_work)
      cannot_modify_items_after_pending update_refused
