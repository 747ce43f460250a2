-- ===== src/Service/Runs.antt =====
-- What any run of the service does to the stored orders.
use oficina_tech_ms_order_se.Shared.{
  List, String, [], arith, is_some, refl, true, ◌∙◌, ◌∷◌, ◌≡◌, Option, none, some,
}
use oficina_tech_ms_order_se.Billing.Effects.{handle_payment_webhook-Safe, retry_payment-Safe}
use oficina_tech_ms_order_se.Billing.Payments.{get_payment_status}
use oficina_tech_ms_order_se.Domain.Order.{ServiceOrder}
use oficina_tech_ms_order_se.Domain.Order.Life.{IsConsistent}
use oficina_tech_ms_order_se.Domain.Order.Traces.{onward_status, ⟶*-trans}
use oficina_tech_ms_order_se.Domain.Status.Flow.{here, ◌⟶*◌}
use oficina_tech_ms_order_se.Platform.Evolution.{Evolves, Evolves-refl, Safe}
use oficina_tech_ms_order_se.Platform.Monad.{◌>>=◌, World}
use oficina_tech_ms_order_se.Platform.Ports.{Env}
use oficina_tech_ms_order_se.Platform.Rules.{
  Quiet, Quiet-bind, Quiet-pure, Rows, Safe-of_Quiet, Quiet-publish_request,
}
use oficina_tech_ms_order_se.Queries.Selection.{find_awaiting_inventory}
use oficina_tech_ms_order_se.Saga.Effects.{handle_failed-Safe, handle_succeeded-Safe}
use oficina_tech_ms_order_se.Saga.Orchestrator.{
  InventoryEvent, failed_event, handle_event, recover_awaiting_sagas, republish, republish_all,
  succeeded, republish_as,
}
use oficina_tech_ms_order_se.Service.Calls.{
  ServiceCall, advance_status, answered, delete, notified, recovered, respond, retry, run, run_all,
  status_of_payment, updated,
}
use oficina_tech_ms_order_se.UseCases.Effects.{
  advance_service_order_status-Safe, delete_service_order-Safe, respond_to_authorization-Safe,
}
use oficina_tech_ms_order_se.UseCases.UpdateEffects.{update_service_order-Rows}

Quiet-republish_as :
    (env : Env) (s : ServiceOrder) (k : Option String) → Quiet (republish_as env s k)
Quiet-republish_as env s none = Quiet-pure
Quiet-republish_as env s (some k) =
    Quiet-bind (record { run = λ w. refl }) λ op. Quiet-publish_request env _

Quiet-republish : (env : Env) (s : ServiceOrder) → Quiet (republish env s)
unfolding republish
Quiet-republish env s = Quiet-republish_as env s s.current_saga_id

Quiet-republish_all : (env : Env) (orders : List ServiceOrder) → Quiet (republish_all env orders)
unfolding republish_all
Quiet-republish_all env [] = Quiet-pure
Quiet-republish_all env (s ∷ rest) =
    Quiet-bind (Quiet-republish env s) λ _. Quiet-republish_all env rest

Quiet-recover : (env : Env) → Quiet (recover_awaiting_sagas env)
unfolding recover_awaiting_sagas find_awaiting_inventory
Quiet-recover env = Quiet-bind (record { run = λ w. refl }) λ orders. Quiet-republish_all env orders

Quiet-get_payment_status : (env : Env) (id : String) → Quiet (get_payment_status env id)
unfolding get_payment_status ◌>>=◌
Quiet-get_payment_status env id = record { run = λ w. ground arith }

handle_event-Safe :
    (env : Env) (event : InventoryEvent) (o : List ServiceOrder) → Safe o (handle_event env event)
handle_event-Safe env (succeeded e) o = handle_succeeded-Safe env e o
handle_event-Safe env (failed_event e) o = handle_failed-Safe env e o

-- One call of the service, whatever fails on its way: no order appears or disappears, the status of
-- each moves along one edge of the workflow at most, a time of closing that is set stays, and the
-- invariant of an order is kept.
pub run-Rows :
    (env : Env) (c : ServiceCall) (w : World) → Rows Evolves w.orders (run env c w).orders
unfolding run
run-Rows env (advance_status id) w = (advance_service_order_status-Safe env id w.orders).run w refl
run-Rows env (retry id) w = (retry_payment-Safe env id w.orders).run w refl
run-Rows env (status_of_payment id) w =
    (Safe-of_Quiet Evolves-refl {o = w.orders} (Quiet-get_payment_status env id)).run w refl
run-Rows env (respond input) w = (respond_to_authorization-Safe env input w.orders).run w refl
run-Rows env (delete id n) w = (delete_service_order-Safe env id n w.orders).run w refl
run-Rows env (notified input) w = (handle_payment_webhook-Safe env input w.orders).run w refl
run-Rows env (answered event) w = (handle_event-Safe env event w.orders).run w refl
run-Rows env recovered w =
    (Safe-of_Quiet Evolves-refl {o = w.orders} (Quiet-recover env)).run w refl
run-Rows env (updated input) w = update_service_order-Rows env input w

-- What a stored order may become in any number of calls.
pub record Descends (s t : ServiceOrder) : Type 0 where
  pub path : s.status ⟶* t.status
  pub closed_once : is_some s.closed_at ≡ true → t.closed_at ≡ s.closed_at
  pub consistent : IsConsistent s → IsConsistent t

Evolves-Descends : (s t u : ServiceOrder) → Evolves s t → Descends t u → Descends s u
Evolves-Descends s t u e d = record {
  path = ⟶*-trans (onward_status s.status t.status e.advances.edge) d.path;
  closed_once = λ h. let kept = e.advances.closed_once h in d.closed_once (rw kept h) ∙ kept;
  consistent = λ i. d.consistent (e.consistent i);
}

-- Any run of the service, with any failures: no order appears or disappears, the status of each
-- only moves along the workflow diagram, a time of closing that is set never changes, and the
-- invariant of an order is kept.
run_all-Rows :
    (env : Env) (calls : List ServiceCall) (w : World)
    → Rows Descends w.orders (run_all env calls w).orders
unfolding run_all
run_all-Rows env [] w = record {
  kept = λ id s h. (s, h, record { path = here; closed_once = λ _. refl; consistent = λ i. i });
  no_new = λ id h. h;
}
run_all-Rows env (c ∷ rest) w =
    let first = run-Rows env c w in
    let later = run_all-Rows env rest (run env c w) in
    record {
      kept = λ id s h.
          let (t, found_t, e) = first.kept id s h in
          let (u, found_u, d) = later.kept id t found_t in (u, found_u, Evolves-Descends s t u e d);
      no_new = λ id h. later.no_new id (first.no_new id h);
    }
