-- ===== src/Saga/Effects.antt =====
-- What the saga's operations do to the table of orders: they write at most one row, over the row of
-- the order that they read.
use oficina_tech_ms_order_se.Shared.{List, Option, String, arith, some, ◌≡◌, none, true}
use oficina_tech_ms_order_se.Domain.Errors.{ok}
use oficina_tech_ms_order_se.Domain.Item.{Clock, Time}
use oficina_tech_ms_order_se.Domain.Order.{
  ServiceOrder, complete_saga, fail_saga, start_saga, update_status,
}
use oficina_tech_ms_order_se.Domain.Status.{
  OrderStatus, authorized, awaiting_payment, canceled, completed, diagnosing, in_progress, paid,
  payment_rejected, pending_authorization, received,
}
use oficina_tech_ms_order_se.Domain.Stock.{
  StockOperation, cancel_confirmed, cancel_reserved, no_operation,
}
use oficina_tech_ms_order_se.Platform.Evolution.{Evolves, Evolves-refl, Safe}
use oficina_tech_ms_order_se.Platform.Monad.{InventoryItem, ◌>>=◌}
use oficina_tech_ms_order_se.Platform.Ports.{Env}
use oficina_tech_ms_order_se.Platform.Rules.{
  Quiet, Safe-save_order, Safe-Quiet_then, Safe-then-Quiet, Quiet-bind, Quiet-generate_uuid,
  Quiet-publish_request, Quiet-pure, Quiet-raise, Quiet-read_clock, Safe-find_then, Safe-lift_then,
  Safe-of_Quiet, Safe-if,
}
use oficina_tech_ms_order_se.Platform.Table.{find_row}
use oficina_tech_ms_order_se.Saga.Orchestrator.{
  cancel_by_status, cancel_order, finish_local, give_up, handle_failed, handle_succeeded,
  start_async, start_order_saga, succeed, transition_local, finish_transition, send_request,
}
use oficina_tech_ms_order_se.Saga.Recording.{
  conclude, move_to, notify, save_saga_history, send_status_update_email,
}
use oficina_tech_ms_order_se.Saga.Values.{FailedEvent, SucceededEvent, inventory_items}

pub Quiet-save_saga_history :
    (env : Env) (s : ServiceOrder) (a b : OrderStatus) (op : StockOperation) (i : String)
    (f n : Option String)
    → Quiet (save_saga_history env s a b op i f n)
unfolding save_saga_history ◌>>=◌
Quiet-save_saga_history env s a b op i f n = record { run = λ w. ground arith }

pub Quiet-notify : (env : Env) (s : ServiceOrder) (a b : OrderStatus) → Quiet (notify env s a b)
unfolding send_status_update_email ◌>>=◌
Quiet-notify env s a b = record { run = λ w. ground arith }

conclude-Safe :
    (env : Env) (old s : ServiceOrder) (a b : OrderStatus) (op : StockOperation) (i : String)
    (f n : Option String) (o : List ServiceOrder)
    → find_row s.id o ≡ some old
    → Evolves old s
    → Safe o (conclude env s a b op i f n)
unfolding conclude
conclude-Safe env old s a b op i f n o h e =
    Safe-Quiet_then Evolves-refl (Quiet-save_saga_history env s a b op i f n) λ _.
      Safe-then-Quiet Evolves-refl (Safe-save_order Evolves-refl env old s h e)
        λ _. Quiet-notify env s a b

-- `UpdateStatus`, where the status differs, and then an end of the saga.
move_to-Evolves :
    (s : ServiceOrder) (target : OrderStatus) (now : Clock) (t : Time) {m : ServiceOrder}
    → move_to s target now ≡ ok m
    → Evolves s (complete_saga m t) × (m.id ≡ s.id)
unfolding update_status complete_saga
move_to-Evolves s target now t h = ground arith

fail_saga-Evolves :
    (s : ServiceOrder) (t : Time) → Evolves s (fail_saga s t) × ((fail_saga s t).id ≡ s.id)
unfolding fail_saga
fail_saga-Evolves s t = ground arith

start_saga-Evolves :
    (s : ServiceOrder) (i : String) (target : OrderStatus) (n : Option String) (now : Time)
    {t : ServiceOrder}
    → start_saga s i target n now ≡ ok t
    → Evolves s t × (t.id ≡ s.id)
unfolding start_saga
start_saga-Evolves s i target n now h = ground arith

finish_transition-Safe :
    (env : Env) (s : ServiceOrder) (target : OrderStatus) (op : StockOperation) (i : String)
    (n : Option String) (now : Clock) (m : ServiceOrder) (o : List ServiceOrder)
    → find_row s.id o ≡ some s
    → move_to s target now ≡ ok m
    → Safe o (finish_transition env s target op i n now m)
unfolding finish_transition
finish_transition-Safe env s target op i n now m o h e =
    let (evolves, same) = move_to-Evolves s target now (now 2) e in
    Safe-then-Quiet Evolves-refl
      (conclude-Safe env s (complete_saga m (now 2)) s.status target op i none n o
        (unfold complete_saga in rw same h) evolves)
      λ _. Quiet-pure {a = complete_saga m (now 2)}

transition_local-Safe :
    (env : Env) (s : ServiceOrder) (target : OrderStatus) (op : StockOperation) (i : String)
    (n : Option String) (o : List ServiceOrder)
    → find_row s.id o ≡ some s
    → Safe o (transition_local env s target op i n)
unfolding transition_local
transition_local-Safe env s target op i n o h =
    Safe-Quiet_then Evolves-refl (Quiet-read_clock env) λ now.
      Safe-lift_then Evolves-refl {f = finish_transition env s target op i n now}
        λ m e. finish_transition-Safe env s target op i n now m o h e

finish_local-Safe :
    (env : Env) (s : ServiceOrder) (target : OrderStatus) (op : StockOperation) (n : Option String)
    (o : List ServiceOrder)
    → find_row s.id o ≡ some s
    → Safe o (finish_local env s target op n)
finish_local-Safe env s target op n o h =
    Safe-then-Quiet Evolves-refl (transition_local-Safe env s target op "" n o h) λ _. Quiet-pure

send_request-Safe :
    (env : Env) (i : String) (op : StockOperation) (items : List InventoryItem) (s t : ServiceOrder)
    (o : List ServiceOrder)
    → find_row t.id o ≡ some s
    → Evolves s t
    → Safe o (send_request env i op items t)
unfolding send_request
send_request-Safe env i op items s t o h e =
    Safe-then-Quiet Evolves-refl (Safe-save_order Evolves-refl env s t h e) λ _.
      Quiet-bind
        (Quiet-publish_request env
          (record { saga_id = i; order_id = t.id; operation = op; items = items }))
        λ _. Quiet-pure {a = record { order = t; saga_id = i; async = true }}

start_async-Safe :
    (env : Env) (s : ServiceOrder) (op : StockOperation) (target : OrderStatus) (n : Option String)
    (o : List ServiceOrder)
    → find_row s.id o ≡ some s
    → Safe o (start_async env s op target n)
unfolding start_async
start_async-Safe env s op target n o h = Safe-Quiet_then Evolves-refl (Quiet-generate_uuid env) λ i.
    Safe-Quiet_then Evolves-refl (Quiet-read_clock env) λ now.
      Safe-lift_then Evolves-refl {f = send_request env i op (inventory_items s)} λ t e.
        let (evolves, same) = start_saga-Evolves s i target n (now 0) e in
        send_request-Safe env i op (inventory_items s) s t o (rw same h) evolves

pub start_order_saga-Safe :
    (env : Env) (id : String) (op : StockOperation) (target : OrderStatus) (n : Option String)
    (o : List ServiceOrder)
    → Safe o (start_order_saga env id op target n)
unfolding start_order_saga
start_order_saga-Safe env id op target n o = Safe-find_then Evolves-refl env id λ s h.
    Safe-lift_then Evolves-refl λ _ _.
      Safe-if Evolves-refl (λ _. finish_local-Safe env s target op n o h)
        (λ _. start_async-Safe env s op target n o h)

cancel_by_status-Safe :
    (env : Env) (id : String) (s : ServiceOrder) (n : Option String) (at : OrderStatus)
    (o : List ServiceOrder)
    → find_row s.id o ≡ some s
    → Safe o (cancel_by_status env id s n at)
cancel_by_status-Safe env id s n received o h = finish_local-Safe env s canceled no_operation n o h
cancel_by_status-Safe env id s n diagnosing o h =
    finish_local-Safe env s canceled no_operation n o h
cancel_by_status-Safe env id s n pending_authorization o h =
    start_order_saga-Safe env id cancel_reserved canceled n o
cancel_by_status-Safe env id s n authorized o h =
    start_order_saga-Safe env id cancel_reserved canceled n o
cancel_by_status-Safe env id s n in_progress o h =
    start_order_saga-Safe env id cancel_reserved canceled n o
cancel_by_status-Safe env id s n completed o h =
    start_order_saga-Safe env id cancel_confirmed canceled n o
cancel_by_status-Safe env id s n awaiting_payment o h =
    start_order_saga-Safe env id cancel_confirmed canceled n o
cancel_by_status-Safe env id s n payment_rejected o h =
    start_order_saga-Safe env id cancel_confirmed canceled n o
cancel_by_status-Safe env id s n paid o h =
    start_order_saga-Safe env id cancel_confirmed canceled n o
cancel_by_status-Safe env id s n _ o h = Safe-of_Quiet Evolves-refl Quiet-raise

pub cancel_order-Safe :
    (env : Env) (id : String) (n : Option String) (o : List ServiceOrder)
    → Safe o (cancel_order env id n)
unfolding cancel_order
cancel_order-Safe env id n o =
    Safe-find_then Evolves-refl env id
      λ s h. Safe-lift_then Evolves-refl λ _ _. cancel_by_status-Safe env id s n s.status o h

succeed-Safe :
    (env : Env) (s : ServiceOrder) (event : SucceededEvent) (o : List ServiceOrder)
    → find_row s.id o ≡ some s
    → Safe o (succeed env s event)
unfolding succeed
succeed-Safe env s event o h = Safe-lift_then Evolves-refl λ target _.
    Safe-Quiet_then Evolves-refl (Quiet-read_clock env) λ now. Safe-lift_then Evolves-refl λ m e.
      let (evolves, same) = move_to-Evolves s target now (now 2) e in
      conclude-Safe env s (complete_saga m (now 2)) s.status target event.operation event.saga_id
        none s.saga_notes o (unfold complete_saga in rw same h) evolves

give_up-Safe :
    (env : Env) (s : ServiceOrder) (event : FailedEvent) (o : List ServiceOrder)
    → find_row s.id o ≡ some s
    → Safe o (give_up env s event)
unfolding give_up
give_up-Safe env s event o h = Safe-Quiet_then Evolves-refl (Quiet-read_clock env) λ now.
    let (evolves, same) = fail_saga-Evolves s (now 0) in
    conclude-Safe env s (fail_saga s (now 0)) s.status s.status event.operation event.saga_id
      (some event.reason) none o (rw same h) evolves

pub handle_succeeded-Safe :
    (env : Env) (event : SucceededEvent) (o : List ServiceOrder)
    → Safe o (handle_succeeded env event)
unfolding handle_succeeded
handle_succeeded-Safe env event o = Safe-find_then Evolves-refl env event.order_id λ s h.
    Safe-if Evolves-refl (λ _. succeed-Safe env s event o h)
      (λ _. Safe-of_Quiet Evolves-refl Quiet-pure)

pub handle_failed-Safe :
    (env : Env) (event : FailedEvent) (o : List ServiceOrder) → Safe o (handle_failed env event)
unfolding handle_failed
handle_failed-Safe env event o = Safe-find_then Evolves-refl env event.order_id λ s h.
    Safe-if Evolves-refl (λ _. give_up-Safe env s event o h)
      (λ _. Safe-of_Quiet Evolves-refl Quiet-pure)
