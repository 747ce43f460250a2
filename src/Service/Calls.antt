-- ===== src/Service/Calls.antt =====
-- The calls that reach an order that is stored: the routes of service_order and billing, the
-- consumers of the inventory's events, and the recovery at the start.
use oficina_tech_ms_order_se.Shared.{List, Option, String, [], ◌∷◌}
use oficina_tech_ms_order_se.Billing.Payments.{get_payment_status}
use oficina_tech_ms_order_se.Billing.Retry.{retry_payment}
use oficina_tech_ms_order_se.Billing.Webhook.{WebhookInput, handle_payment_webhook}
use oficina_tech_ms_order_se.Platform.Monad.{World}
use oficina_tech_ms_order_se.Platform.Ports.{Env}
use oficina_tech_ms_order_se.Saga.Orchestrator.{
  InventoryEvent, handle_event, recover_awaiting_sagas,
}
use oficina_tech_ms_order_se.UseCases.Advance.{advance_service_order_status}
use oficina_tech_ms_order_se.UseCases.Authorization.{AuthorizationInput, respond_to_authorization}
use oficina_tech_ms_order_se.UseCases.Deletion.{delete_service_order}
use oficina_tech_ms_order_se.UseCases.Update.{UpdateInput, update_service_order}

pub data ServiceCall : Type 0 where
  advance_status retry status_of_payment : String → ServiceCall
  respond : AuthorizationInput → ServiceCall
  delete : String → Option String → ServiceCall
  notified : WebhookInput → ServiceCall
  answered : InventoryEvent → ServiceCall
  recovered : ServiceCall
  updated : UpdateInput → ServiceCall

-- The state that a call leaves, whether it succeeds or fails.
unfoldable pub run : Env → ServiceCall → World → World
run env (advance_status id) w = (advance_service_order_status env id w).1
run env (retry id) w = (retry_payment env id w).1
run env (status_of_payment id) w = (get_payment_status env id w).1
run env (respond input) w = (respond_to_authorization env input w).1
run env (delete id notes) w = (delete_service_order env id notes w).1
run env (notified input) w = (handle_payment_webhook env input w).1
run env (answered event) w = (handle_event env event w).1
run env recovered w = (recover_awaiting_sagas env w).1
run env (updated input) w = (update_service_order env input w).1

unfoldable pub run_all : Env → List ServiceCall → World → World
run_all env [] w = w
run_all env (c ∷ rest) w = run_all env rest (run env c w)
