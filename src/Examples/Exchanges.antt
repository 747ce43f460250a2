-- ===== src/Examples/Exchanges.antt =====
-- The theorems on requests and their replies at concrete requests.
use oficina_tech_ms_order_se.Shared.{All, Bool, List, String, is_empty, not, refl, some, ◌≡◌, false}
use oficina_tech_ms_order_se.Access.{role_level}
use oficina_tech_ms_order_se.Domain.Errors.{external, invalid_quantity, saga_already_in_progress}
use oficina_tech_ms_order_se.Domain.Order.Basket.{total_amount}
use oficina_tech_ms_order_se.Examples.Data.{calm, diagnosed, world_of}
use oficina_tech_ms_order_se.Http.Guarded.{route-IsRouted}
use oficina_tech_ms_order_se.Http.Handlers.{
  Caller, ListQuery, answer_with, get_all_service_orders_handler, list_payload, Reply,
}
use oficina_tech_ms_order_se.Http.Keywords.{contains, contains_lower}
use oficina_tech_ms_order_se.Http.Mapping.{
  map_domain_error, map_refusal, map_validation, message, return_if,
}
use oficina_tech_ms_order_se.Http.OwnOrders.{get_all_service_orders_handler-own}
use oficina_tech_ms_order_se.Http.PaymentReplies.{IsAnsweredBy, handle_payment-IsAnsweredBy}
use oficina_tech_ms_order_se.Http.Payments.{Notification, PaymentReply, handle_payment, delivering}
use oficina_tech_ms_order_se.Http.Replies.{IsAnswered, handle-IsAnswered, IsFailure}
use oficina_tech_ms_order_se.Http.Routes.{deleting, handle, route}
use oficina_tech_ms_order_se.Platform.Monad.{World, ◌>>=◌}
use oficina_tech_ms_order_se.Queries.Reading.{
  OrderView, get_all_service_orders, if_answered, view_of, views_of,
}
use oficina_tech_ms_order_se.Queries.Selection.{
  filtered_rows, find_all_with_filters, insert_by, is_hidden, order_by, passes,
}

abbrev ana : Caller
ana = record { id = "customer-1"; role = "CUSTOMER" }

-- She asks for the orders of another customer.
abbrev of_others : ListQuery
of_others = record {
  customer_id = "customer-2";
  status = "";
  sort_by_status = "";
  hide_completed = "true";
}

abbrev dashed : String → Bool
dashed id = not (is_empty id)

own_list :
    (views : List OrderView) × ((get_all_service_orders_handler dashed calm ana of_others
        (world_of diagnosed)).0.payload
      ≡ some (list_payload views))
unfolding get_all_service_orders_handler answer_with get_all_service_orders find_all_with_filters
    filtered_rows order_by insert_by passes is_hidden views_of view_of ◌>>=◌ if_answered
    total_amount
own_list = (_, refl)

get_all_service_orders_handler-own_example :
    All (λ (v : OrderView). v.order.customer_id ≡ "customer-1") own_list.0
get_all_service_orders_handler-own_example =
    get_all_service_orders_handler-own dashed calm ana of_others (world_of diagnosed) own_list.0
      refl refl own_list.1

handle-IsAnswered_example :
    IsAnswered dashed calm ana
      (deleting "o-1")
      (world_of diagnosed)
      (handle dashed calm ana (deleting "o-1") (world_of diagnosed)).0
      (handle dashed calm ana (deleting "o-1") (world_of diagnosed)).1
handle-IsAnswered_example = handle-IsAnswered dashed calm ana (deleting "o-1") (world_of diagnosed)

abbrev asks_to_delete : Reply × World
asks_to_delete = route dashed calm ana (deleting "o-1") (world_of diagnosed)

route-IsRouted_example : IsFailure 403 asks_to_delete.0 × (asks_to_delete.1 ≡ world_of diagnosed)
unfolding role_level
route-IsRouted_example = route-IsRouted dashed calm ana (deleting "o-1") (world_of diagnosed)

-- An invalid quantity of the request is answered like a failure of the server.
quantity_status : (map_domain_error invalid_quantity).status_code ≡ 500
unfolding map_domain_error message map_refusal map_validation return_if contains contains_lower
quantity_status = refl

-- A conflict with a running saga as well.
saga_status_code : (map_domain_error saga_already_in_progress).status_code ≡ 500
unfolding map_domain_error message map_refusal map_validation return_if contains contains_lower
saga_status_code = refl

-- A message in English is recognised, whatever the case of its letters.
already_exists : (map_domain_error (external "Plate ALREADY EXISTS: Invalid")).status_code ≡ 400
unfolding map_domain_error message map_refusal map_validation return_if contains contains_lower
already_exists = refl

-- A notification of a payment whose signature is not valid.
abbrev unsigned : Notification
unsigned = record {
  kind = "payment";
  reference = "o-1";
  body_id = "mp-1";
  query_id = "";
  is_signed = false;
  topic = "";
}

abbrev of_unsigned : PaymentReply × World
of_unsigned = handle_payment dashed calm (delivering (some unsigned)) (world_of diagnosed)

handle_payment-IsAnsweredBy_example :
    IsAnsweredBy dashed calm
      (delivering (some unsigned))
      (world_of diagnosed)
      of_unsigned.0
      of_unsigned.1
handle_payment-IsAnsweredBy_example =
    handle_payment-IsAnsweredBy dashed calm (delivering (some unsigned)) (world_of diagnosed)
