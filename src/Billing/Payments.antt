-- ===== src/Billing/Payments.antt =====
-- create_payment_preference.go, cancel_payment_order.go, refund_payment_order.go and
-- get_payment_status.go: what the service asks of Mercado Pago for an order. A price in cents stands
-- for the number that the source divides by 100.
use oficina_tech_ms_order_se.Shared.{
  Bool, List, Option, String, [], if◌then◌else◌, is_empty, map, not, some, ◌&&◌, ◌∷◌, append_text,
}
use oficina_tech_ms_order_se.Domain.Errors.{Result, err, ok, payment_url_not_available}
use oficina_tech_ms_order_se.Domain.History.{filter_active_items}
use oficina_tech_ms_order_se.Domain.Item.{ServiceOrderItem}
use oficina_tech_ms_order_se.Domain.Order.{ServiceOrder, is_saga_awaiting_payment}
use oficina_tech_ms_order_se.Domain.Order.Basket.{total_amount}
use oficina_tech_ms_order_se.Domain.Status.{awaiting_payment, status_eq, to_string}
use oficina_tech_ms_order_se.Platform.Monad.{
  ◌>>=◌, ◌>>◌, Action, PayerInfo, PaymentCall, PaymentItem, cancel_mp_order, create_order, lift,
  pure, raise_if, refund_mp_order,
}
use oficina_tech_ms_order_se.Platform.Ports.{Env, MpOrder, call_mp, find_by_id}

abbrev payment_item : ServiceOrderItem → PaymentItem
payment_item i = record { title = i.name; quantity = i.quantity; cents = i.unit_price }

-- `if len(items) == 0 { … }` at the end of `BuildOrderItems`.
abbrev or_whole_order : ServiceOrder → List PaymentItem → List PaymentItem
or_whole_order order [] =
    record {
      title = append_text "Ordem de Serviço " order.id;
      quantity = 1;
      cents = total_amount order;
    }
    ∷ []
or_whole_order order (i ∷ rest) = i ∷ rest

unfoldable pub build_order_items : ServiceOrder → List PaymentItem
build_order_items order = or_whole_order order (map payment_item (filter_active_items order.items))

abbrev build_payer_info : ServiceOrder → PayerInfo
build_payer_info order = record { email = order.customer_email; name = order.customer_name }

unfoldable pub create_payment_preference : Env → ServiceOrder → Action MpOrder
create_payment_preference env order =
    call_mp env (create_order (build_order_items order) (build_payer_info order) order.id)

-- A call whose order is not looked at.
abbrev ask_mp : Env → String → PaymentCall → Action (Unit {0})
ask_mp env mp_id call = if is_empty mp_id then pure tt else (call_mp env call >>= λ _. pure tt)

unfoldable pub cancel_payment_order : Env → String → Action (Unit {0})
cancel_payment_order env mp_order_id = ask_mp env mp_order_id (cancel_mp_order mp_order_id)

unfoldable pub refund_payment_order : Env → String → Action (Unit {0})
refund_payment_order env mp_order_id = ask_mp env mp_order_id (refund_mp_order mp_order_id)

-- `GetPaymentStatusOutput`.
pub record PaymentStatusOutput : Type 0 where
  pub payment_url : String
  pub order_id : String
  pub status : String

abbrev payment_status_output :
    ServiceOrder → Option String → Option String → Result PaymentStatusOutput
payment_status_output order (some url) (some mp_id) =
    ok (record { payment_url = url; order_id = mp_id; status = to_string order.status })
payment_status_output order _ _ = err payment_url_not_available

abbrev is_payable : ServiceOrder → Bool
is_payable order =
    status_eq order.status awaiting_payment && is_saga_awaiting_payment order.saga_status

unfoldable pub get_payment_status : Env → String → Action PaymentStatusOutput
get_payment_status env service_order_id = do
  order ← find_by_id env service_order_id
  raise_if (not (is_payable order)) payment_url_not_available
  lift (payment_status_output order order.payment_url order.mp_preference_id)
