-- ===== src/Examples/Entries.antt =====
-- The theorems on whole runs, on the message of a deleted customer and on the items of an order at
-- concrete values.
use oficina_tech_ms_order_se.Shared.{Any, [], false, is_empty, refl, some, ◌∷◌, ◌≡◌, arith}
use oficina_tech_ms_order_se.Domain.Errors.{ok}
use oficina_tech_ms_order_se.Domain.Item.{product, update_quantity}
use oficina_tech_ms_order_se.Domain.Order.{
  ServiceOrder, can_modify_items, is_closed, complete_saga, update_status,
}
use oficina_tech_ms_order_se.Domain.Order.Basket.{modify_first, update_item_quantity}
use oficina_tech_ms_order_se.Domain.Order.Calls.{item_updated, perform}
use oficina_tech_ms_order_se.Domain.Order.Contents.{abstractly, contents}
use oficina_tech_ms_order_se.Domain.Order.Refinement.{perform-abstractly}
use oficina_tech_ms_order_se.Domain.Order.Stocked.{IsStocked}
use oficina_tech_ms_order_se.Domain.Status.{can_transition_to}
use oficina_tech_ms_order_se.Examples.Data.{brake_pads, calm, diagnosed, noon, world_of, plain_wire}
use oficina_tech_ms_order_se.Messaging.CustomerDeleted.{handle_customer_deleted}
use oficina_tech_ms_order_se.Messaging.CustomerGone.{
  IsSettledBy, handle_customer_deleted-IsSettledBy,
}
use oficina_tech_ms_order_se.Messaging.Decoding.{CustomerDeleted, Message, decode_customer_deleted}
use oficina_tech_ms_order_se.Platform.Monad.{◌>>=◌}
use oficina_tech_ms_order_se.Platform.Table.{find_row}
use oficina_tech_ms_order_se.Saga.Orchestrator.{cancel_order, finish_transition, transition_local}
use oficina_tech_ms_order_se.Saga.Recording.{conclude, save_saga_history, send_status_update_email}
use oficina_tech_ms_order_se.Service.Born.{Grows}
use oficina_tech_ms_order_se.Service.Calls.{advance_status}
use oficina_tech_ms_order_se.Service.Growth.{serve_all-Grows}
use oficina_tech_ms_order_se.Service.Server.{called, created, customer_removed, serve_all}
use oficina_tech_ms_order_se.UseCases.Creation.{CreationInput}
use oficina_tech_ms_order_se.UseCases.Deletion.{cancel_after_payment}

abbrev goodbye : Message
goodbye = record { body = some "customer-1"; receipt = some "receipt-1" }

customer_gone : (handle_customer_deleted plain_wire calm goodbye (world_of diagnosed)).0 ≡ ok tt
unfolding handle_customer_deleted decode_customer_deleted ◌>>=◌ find_row cancel_after_payment
    cancel_order transition_local update_status can_transition_to finish_transition conclude
    save_saga_history complete_saga send_status_update_email
customer_gone = refl

handle_customer_deleted-IsSettledBy_example :
    (event : CustomerDeleted) × (decode_customer_deleted plain_wire goodbye ≡ ok event)
    × (is_empty event.customer_id ≡ false)
    × ((s : ServiceOrder)
        → Any (λ o. o ≡ s) (diagnosed ∷ [])
        → s.customer_id ≡ event.customer_id
        → IsSettledBy
            (handle_customer_deleted plain_wire calm goodbye (world_of diagnosed)).1.orders
            s)
handle_customer_deleted-IsSettledBy_example =
    handle_customer_deleted-IsSettledBy plain_wire calm goodbye (world_of diagnosed) customer_gone

abbrev new_request : CreationInput
new_request = record {
  customer_id = "customer-1";
  vehicle_id = "vehicle-1";
  description = "Oil";
  items = [];
}

serve_all-Grows_example :
    Grows
      (diagnosed ∷ [])
      (serve_all plain_wire calm
        (created new_request ∷ called (advance_status "order-1") ∷ customer_removed goodbye ∷ [])
        (world_of diagnosed)).orders
serve_all-Grows_example = serve_all-Grows plain_wire calm _ (world_of diagnosed)

pads-IsStocked : IsStocked diagnosed.items
pads-IsStocked = record {
  sound = (record { some_quantity = omega arith; some_price = omega arith }, tt);
  apart = (tt, tt);
}

abbrev fewer_pads : ServiceOrder
fewer_pads = record diagnosed {
  items = record brake_pads { quantity = 5; updated_at = 720 } ∷ [];
  updated_at = 721;
}

quantity_updated : perform (item_updated "item-1" 5) noon diagnosed ≡ ok fewer_pads
unfolding perform update_item_quantity is_closed can_modify_items modify_first update_quantity
quantity_updated = refl

perform-abstractly_example :
    contents fewer_pads.items "product-7" product
    ≡ abstractly
        (item_updated "item-1" 5)
        diagnosed.items
        (contents diagnosed.items)
        "product-7"
        product
perform-abstractly_example =
    perform-abstractly (item_updated "item-1" 5) noon diagnosed fewer_pads "product-7" product tt
      pads-IsStocked quantity_updated
