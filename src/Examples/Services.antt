-- ===== src/Examples/Services.antt =====
-- The theorems on the whole service and on payments at concrete orders.
use oficina_tech_ms_order_se.Shared.{[], false, none, refl, some, true, ◌∷◌, ◌≡◌}
use oficina_tech_ms_order_se.Billing.Once.{SameBooks, handle_payment_webhook-once}
use oficina_tech_ms_order_se.Billing.Paid.{Approved, handle_payment_webhook-Approved}
use oficina_tech_ms_order_se.Billing.Webhook.{
  WebhookInput, apply_change, handle_payment_webhook, mark, record_payment, save_payment_history,
  settle_payment,
}
use oficina_tech_ms_order_se.Domain.Errors.{err, external, ok}
use oficina_tech_ms_order_se.Domain.History.{new_history}
use oficina_tech_ms_order_se.Domain.Order.{
  ServiceOrder, confirm_payment, idle, saga_awaiting_payment, update_status,
}
use oficina_tech_ms_order_se.Domain.Status.{
  awaiting_payment, can_transition_to, paid, to_string, authorized, pending_authorization,
}
use oficina_tech_ms_order_se.Domain.Stock.{determine_inventory_operation}
use oficina_tech_ms_order_se.Examples.Data.{calm, order_with, world_of}
use oficina_tech_ms_order_se.Platform.Monad.{◌>>=◌}
use oficina_tech_ms_order_se.Platform.Ports.{Env, MpPayment, step}
use oficina_tech_ms_order_se.Platform.Table.{find_row, save_row}
use oficina_tech_ms_order_se.Saga.Recording.{send_status_update_email}
use oficina_tech_ms_order_se.UseCases.Answers.{MayAnswer, respond_to_authorization-answered_status}
use oficina_tech_ms_order_se.UseCases.Authorization.{
  AuthorizationInput, answer_to, respond_to_authorization,
}
use oficina_tech_ms_order_se.UseCases.Deletion.{delete_service_order}
use oficina_tech_ms_order_se.UseCases.Refunds.{
  delete_service_order-refund_payment_order, refund_asked,
}
use oficina_tech_ms_order_se.UseCases.Steps.{StepOutput, record_step, step_locally}

abbrev billed : ServiceOrder
billed = record (order_with awaiting_payment saga_awaiting_payment none none) {
  mp_preference_id = some "mp-1";
  payment_url = some "https://pay.example/mp-1";
}

abbrev notice : WebhookInput
notice = record { mp_order_id = "payment-1"; reference = "" }

abbrev approval : MpPayment
approval = record {
  id = "payment-1";
  status = "approved";
  status_detail = "";
  external_reference = "order-1";
}

notice_handled :
    (handle_payment_webhook calm notice (world_of billed)).0
    ≡ ok (record { processed = true; status = "PAID"; order_id = "order-1" })
unfolding handle_payment_webhook ◌>>=◌ settle_payment mark find_row apply_change confirm_payment
    update_status can_transition_to record_payment save_payment_history new_history
    send_status_update_email to_string
notice_handled = refl

notice_answered :
    calm.mp_payment (handle_payment_webhook calm notice (world_of billed)).1.tick "payment-1"
    ≡ ok approval
notice_answered = refl

handle_payment_webhook-once_example :
    SameBooks
      (handle_payment_webhook calm notice (world_of billed)).1
      (handle_payment_webhook calm notice
        (handle_payment_webhook calm notice (world_of billed)).1).1
handle_payment_webhook-once_example =
    handle_payment_webhook-once calm notice (world_of billed) approval
      (record { processed = true; status = "PAID"; order_id = "order-1" }) refl notice_handled
      notice_answered

abbrev settled_order : ServiceOrder
settled_order = record (order_with paid idle none none) { mp_payment_id = some "payment-1" }

-- Mercado Pago is down.
abbrev without_mp : Env
without_mp = record calm { mp_order = λ t c. err (external "timeout") }

settled_order_row : find_row "order-1" (settled_order ∷ []) ≡ some settled_order
unfolding find_row
settled_order_row = refl

delete_service_order-refund_payment_order_example :
    delete_service_order without_mp "order-1" none (world_of settled_order)
    ≡ (err (external "timeout"), refund_asked "payment-1" (step (world_of settled_order)))
delete_service_order-refund_payment_order_example =
    delete_service_order-refund_payment_order without_mp "order-1" "payment-1" none
      (world_of settled_order) settled_order (external "timeout") settled_order_row refl refl refl
      refl refl refl

handle_payment_webhook-Approved_example :
    Approved "order-1" "payment-1"
      (world_of billed)
      (handle_payment_webhook calm notice (world_of billed)).1
handle_payment_webhook-Approved_example =
    handle_payment_webhook-Approved calm notice (world_of billed) approval
      (record { processed = true; status = "PAID"; order_id = "order-1" }) refl refl refl
      notice_handled

abbrev estimated : ServiceOrder
estimated = order_with pending_authorization idle none none

abbrev agreement : AuthorizationInput
agreement = record {
  service_order_id = "order-1";
  approved = true;
  observation = none;
  caller_id = "customer-1";
  caller_role = "CUSTOMER";
}

-- The order that the agreement leaves, and what the caller is told.
abbrev agreed_output : StepOutput
agreed_output = record {
  order = record estimated { status = authorized; updated_at = 721 };
  saga_id = none;
  async = false;
  payment_url = none;
}

agreement_taken :
    (respond_to_authorization calm agreement (world_of estimated)).0 ≡ ok agreed_output
unfolding respond_to_authorization ◌>>=◌ find_row determine_inventory_operation answer_to
    step_locally update_status can_transition_to record_step new_history send_status_update_email
agreement_taken = refl

respond_to_authorization-answered_status_example :
    (s : ServiceOrder) × (find_row "order-1" (estimated ∷ []) ≡ some s)
    × MayAnswer agreement s
    × ((t : ServiceOrder) × (t.status ≡ authorized)
        × (t.id ≡ s.id)
        × ((respond_to_authorization calm agreement (world_of estimated)).1.orders
            ≡ save_row t (estimated ∷ [])))
respond_to_authorization-answered_status_example =
    respond_to_authorization-answered_status calm agreement (world_of estimated) agreed_output refl
      agreement_taken
