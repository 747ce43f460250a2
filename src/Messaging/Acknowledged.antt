-- ===== src/Messaging/Acknowledged.antt =====
-- A message leaves the queue only when its saga is settled.
use mathlib.Core.Path.{subst}
use oficina_tech_ms_order_se.Shared.{
  Bool, Option, String, ap, if◌then◌else◌, none, refl, some, sym, ◌∙◌, ◌≡◌,
}
use oficina_tech_ms_order_se.Domain.Errors.{ok, ok_injective}
use oficina_tech_ms_order_se.Domain.Order.{ServiceOrder, can_process_saga}
use oficina_tech_ms_order_se.Http.Mapping.{message}
use oficina_tech_ms_order_se.Messaging.Consumers.{
  delete_message, delete_receipt, handle_failure_message, handle_success_message,
}
use oficina_tech_ms_order_se.Messaging.Decoding.{Message, Wire, decode_failed, decode_succeeded}
use oficina_tech_ms_order_se.Platform.Monad.{◌>>=◌, ◌>>◌, Action, World, lift, pure}
use oficina_tech_ms_order_se.Platform.Outcomes.{>>=-ok, find_by_id-ok, if_ends}
use oficina_tech_ms_order_se.Platform.Ports.{Env, find_by_id, step}
use oficina_tech_ms_order_se.Platform.Rules.{Quiet}
use oficina_tech_ms_order_se.Platform.Table.{find_row}
use oficina_tech_ms_order_se.Saga.Orchestrator.{
  InventoryEvent, failed_event, handle_event, is_current_saga, order_of, saga_of, succeeded,
}
use oficina_tech_ms_order_se.Saga.Settling.{Settled, handle_event-Settled}
use oficina_tech_ms_order_se.Saga.Values.{FailedEvent, SucceededEvent}

pub Quiet-delete_receipt : (wire : Wire) (r : Option String) → Quiet (delete_receipt wire r)
Quiet-delete_receipt wire none = record { run = λ w. refl }
Quiet-delete_receipt wire (some r) = record { run = λ w. refl }

current_ok :
    (env : Env) (id saga_id : String) (w : World) {b : Bool}
    → (is_current_saga env id saga_id w).0 ≡ ok b
    → (s : ServiceOrder) × (find_row id w.orders ≡ some s)
      × (can_process_saga s saga_id ≡ b)
      × ((is_current_saga env id saga_id w).1 ≡ step w)
unfolding is_current_saga
current_ok env id saga_id w h =
    let (s, r, h1, e1) = >>=-ok (find_by_id env id) _ w h in
    (s, find_by_id-ok env id w r, ok_injective h1, e1)

-- The part of `HandleMessage` that follows the decoding.
abbrev consume : Wire → Env → Message → InventoryEvent → Action (Unit {0})
consume wire env message event = do
  current ← is_current_saga env (order_of event) (saga_of event)
  if current then handle_event env event else pure tt
  delete_message wire message

consumed :
    (wire : Wire) (env : Env) (message : Message) (event : InventoryEvent) (w : World)
    → (consume wire env message event w).0 ≡ ok tt
    → Settled (order_of event) (saga_of event) (consume wire env message event w).1.orders
consumed wire env message event w h =
    let (b, r, h1, e1) = >>=-ok (is_current_saga env (order_of event) (saga_of event)) _ w h in
    let (s, row, current, e2) = current_ok env (order_of event) (saga_of event) w r in
    let v = (is_current_saga env (order_of event) (saga_of event) w).1 in
    let handle = if b then handle_event env event else pure tt in
    let (_, handled, _, e3) = >>=-ok handle (λ _. delete_message wire message) v h1 in
    let kept =
      ap (λ u. u.orders) (e1 ∙ e3) ∙ (Quiet-delete_receipt wire message.receipt).run (handle v).1 in
    subst (Settled (order_of event) (saga_of event)) (sym kept) (
      if_ends (Settled (order_of event) (saga_of event)) b (handle_event env event) (pure tt) v
        (λ _ done. handle_event-Settled env event v done)
        (λ off _ t found_t.
          let again : find_row (order_of event) w.orders ≡ some t =
            ap (λ u. find_row (order_of event) u.orders) (sym e2) ∙ found_t in
          let both : some s ≡ some t = sym row ∙ again in
          let same : s ≡ t = cc in
          ap (λ u. can_process_saga u (saga_of event)) (sym same) ∙ current ∙ off)
        handled)

-- When a success message has been handled and deleted from the queue, it held an event, and no order
-- of that id waits for the answer to its saga any more.
pub handle_success_message-Settled :
    (wire : Wire) (env : Env) (message : Message) (w : World)
    → (handle_success_message wire env message w).0 ≡ ok tt
    → (event : SucceededEvent) × (decode_succeeded wire message ≡ ok event)
      × Settled event.order_id event.saga_id (handle_success_message wire env message w).1.orders
unfolding handle_success_message
handle_success_message-Settled wire env message w h =
    let (event, decoded, h1, e1) = >>=-ok (lift (decode_succeeded wire message)) _ w h in
    (
      event,
      decoded,
      subst (λ u. Settled event.order_id event.saga_id u.orders) (sym e1)
          (consumed wire env message (succeeded event) w h1),
    )

-- When a failure message has been handled and deleted from the queue, it held an event, and no order
-- of that id waits for the answer to its saga any more.
pub handle_failure_message-Settled :
    (wire : Wire) (env : Env) (message : Message) (w : World)
    → (handle_failure_message wire env message w).0 ≡ ok tt
    → (event : FailedEvent) × (decode_failed wire message ≡ ok event)
      × Settled event.order_id event.saga_id (handle_failure_message wire env message w).1.orders
unfolding handle_failure_message
handle_failure_message-Settled wire env message w h =
    let (event, decoded, h1, e1) = >>=-ok (lift (decode_failed wire message)) _ w h in
    (
      event,
      decoded,
      subst (λ u. Settled event.order_id event.saga_id u.orders) (sym e1)
          (consumed wire env message (failed_event event) w h1),
    )
