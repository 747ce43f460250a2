-- ===== src/Saga/Settling.antt =====
-- What an event of the saga leaves behind, and why it counts once however often it is delivered.
use mathlib.Core.Path.{subst}
use oficina_tech_ms_order_se.Shared.{
  Option, String, ap, arith, ◌∙◌, ◌≡◌, refl, List, eq_iff, false, some, if◌then◌else◌, none, sym,
}
use oficina_tech_ms_order_se.Domain.Errors.{ok, Error, Result}
use oficina_tech_ms_order_se.Domain.Item.{Clock, Time}
use oficina_tech_ms_order_se.Domain.Order.{
  ServiceOrder, complete_saga, idle, update_status, SagaStatus, fail_saga, failed, can_process_saga,
  is_awaiting_inventory,
}
use oficina_tech_ms_order_se.Domain.Status.{OrderStatus}
use oficina_tech_ms_order_se.Domain.Status.Names.{status_eq-eq}
use oficina_tech_ms_order_se.Domain.Stock.{StockOperation}
use oficina_tech_ms_order_se.Platform.Monad.{World, lift, ◌>>=◌, Action, pure}
use oficina_tech_ms_order_se.Platform.Outcomes.{>>=-ok, find_by_id-ok, if_ends, save_order-ok}
use oficina_tech_ms_order_se.Platform.Ports.{
  Env, save_order, read_clock, step, find_by_id, find_outcome,
}
use oficina_tech_ms_order_se.Platform.Table.{save_row, find_row, find_row-save_row, find_row_id}
use oficina_tech_ms_order_se.Saga.Effects.{Quiet-notify, Quiet-save_saga_history}
use oficina_tech_ms_order_se.Saga.Orchestrator.{
  give_up, succeed, InventoryEvent, failed_event, handle_event, handle_failed, handle_succeeded,
  order_of, saga_of, succeeded,
}
use oficina_tech_ms_order_se.Saga.Recording.{conclude, move_to, notify, save_saga_history}
use oficina_tech_ms_order_se.Saga.Values.{FailedEvent, SucceededEvent, target_status_for_success}

-- A successful end of a step has stored the order that it was given.
conclude-ok :
    (env : Env) (s : ServiceOrder) (a b : OrderStatus) (op : StockOperation) (i : String)
    (f n : Option String) (w : World) {u : Unit {0}}
    → (conclude env s a b op i f n w).0 ≡ ok u
    → (conclude env s a b op i f n w).1.orders ≡ save_row s w.orders
unfolding conclude
conclude-ok env s a b op i f n w h =
    let (_, _, h1, e1) = >>=-ok (save_saga_history env s a b op i f n) _ w h in
    let (_, h2, h3, e2) =
      >>=-ok (save_order env s) (λ _. notify env s a b) (save_saga_history env s a b op i f n w).1
        h1 in
    ap (λ v. v.orders) e1
    ∙ ap (λ v. v.orders) e2
    ∙ (Quiet-notify env s a b).run _
    ∙ save_order-ok env s (save_saga_history env s a b op i f n w).1 h2
    ∙ ap (save_row s) ((Quiet-save_saga_history env s a b op i f n).run w)

pub move_to_complete :
    (s : ServiceOrder) (target : OrderStatus) (now : Clock) (t : Time) {m : ServiceOrder}
    → move_to s target now ≡ ok m
    → ((complete_saga m t).status ≡ target)
      × ((complete_saga m t).saga_status ≡ idle)
      × ((complete_saga m t).id ≡ s.id)
unfolding update_status complete_saga
move_to_complete s target now t h = ground (arith, status_eq-eq s.status target)

-- The order that a step stored: its status, the end of its saga, and the row that it replaced.
abbrev pub StoredAs : ServiceOrder → OrderStatus → SagaStatus → World → World → Type 0
StoredAs s target saga_status w v =
    (t : ServiceOrder) × (t.status ≡ target)
    × (t.saga_status ≡ saga_status)
    × (t.id ≡ s.id)
    × (v.orders ≡ save_row t w.orders)

succeed-ok :
    (env : Env) (s : ServiceOrder) (event : SucceededEvent) (w : World) {u : Unit {0}}
    → (succeed env s event w).0 ≡ ok u
    → (target : OrderStatus) × (target_status_for_success s event.operation ≡ ok target)
      × StoredAs s target idle w (succeed env s event w).1
unfolding succeed
succeed-ok env s event w h =
    let (target, r, h1, e1) = >>=-ok (lift (target_status_for_success s event.operation)) _ w h in
    let (now, _, h2, e2) = >>=-ok (read_clock env) _ w h1 in
    let (m, moved, h3, e3) = >>=-ok (lift (move_to s target now)) _ (step w) h2 in
    let (status, saga, id) = move_to_complete s target now (now 2) moved in
    (
      target,
      r,
      (
        complete_saga m (now 2),
        status,
        saga,
        id,
        ap (λ v. v.orders) (e1 ∙ e2 ∙ e3)
            ∙ conclude-ok env (complete_saga m (now 2)) _ _ _ _ _ _ (step w) h3,
      ),
    )

give_up-ok :
    (env : Env) (s : ServiceOrder) (event : FailedEvent) (w : World) {u : Unit {0}}
    → (give_up env s event w).0 ≡ ok u
    → StoredAs s s.status failed w (give_up env s event w).1
unfolding give_up
give_up-ok env s event w h =
    let (now, _, h1, e1) = >>=-ok (read_clock env) _ w h in
    (
      fail_saga s (now 0),
      (unfold fail_saga in refl),
      (unfold fail_saga in refl),
      (unfold fail_saga in refl),
      ap (λ v. v.orders) e1 ∙ conclude-ok env (fail_saga s (now 0)) _ _ _ _ _ _ (step w) h1,
    )

-- No order of that id waits for the answer to that saga.
abbrev pub Settled : String → String → List ServiceOrder → Type 0
Settled id saga_id o =
    (s : ServiceOrder) → find_row id o ≡ some s → can_process_saga s saga_id ≡ false

Settled-by_row :
    (id saga_id : String) (t : ServiceOrder) (o p : List ServiceOrder)
    → p ≡ save_row t o
    → t.id ≡ id
    → is_awaiting_inventory t.saga_status ≡ false
    → Settled id saga_id p
Settled-by_row id saga_id t o p e same rest s row =
    ground (arith, find_row-save_row id t o, ap (find_row id) e, eq_iff t.id id)

Settled-by_guard :
    (env : Env) (id saga_id : String) (s : ServiceOrder) (w : World) (m : Action (Unit {0}))
    → find_row id w.orders ≡ some s
    → ((m (step w)).0 ≡ ok tt → Settled id saga_id (m (step w)).1.orders)
    → ((if can_process_saga s saga_id then m else pure tt) (step w)).0 ≡ ok tt
    → Settled id saga_id ((if can_process_saga s saga_id then m else pure tt) (step w)).1.orders
Settled-by_guard env id saga_id s w m row go h =
    if_ends (Settled id saga_id) (can_process_saga s saga_id) m (pure tt) (step w) (λ _. go)
      (λ stale _ t found_t.
        let same : some s ≡ some t = sym row ∙ found_t in
        let both : s ≡ t = cc in ap (λ u. can_process_saga u saga_id) (sym both) ∙ stale)
      h

-- A handler that succeeds leaves its saga settled.
pub handle_event-Settled :
    (env : Env) (event : InventoryEvent) (w : World)
    → (handle_event env event w).0 ≡ ok tt
    → Settled (order_of event) (saga_of event) (handle_event env event w).1.orders
unfolding handle_succeeded handle_failed
handle_event-Settled env (succeeded event) w h =
    let (s, r, h1, e1) = >>=-ok (find_by_id env event.order_id) _ w h in
    let row = find_by_id-ok env event.order_id w r in
    subst (λ v. Settled event.order_id event.saga_id v.orders) (sym e1)
      (Settled-by_guard env event.order_id event.saga_id s w (succeed env s event) row
        (λ fine.
          let (target, _, (t, _, idle_now, same, e)) = succeed-ok env s event (step w) fine in
          Settled-by_row event.order_id event.saga_id t w.orders _ e
            (same ∙ find_row_id event.order_id w.orders row) (ap is_awaiting_inventory idle_now))
        h1)
handle_event-Settled env (failed_event event) w h =
    let (s, r, h1, e1) = >>=-ok (find_by_id env event.order_id) _ w h in
    let row = find_by_id-ok env event.order_id w r in
    subst (λ v. Settled event.order_id event.saga_id v.orders) (sym e1)
      (Settled-by_guard env event.order_id event.saga_id s w (give_up env s event) row
        (λ fine.
          let (t, _, failed_now, same, e) = give_up-ok env s event (step w) fine in
          Settled-by_row event.order_id event.saga_id t w.orders _ e
            (same ∙ find_row_id event.order_id w.orders row) (ap is_awaiting_inventory failed_now))
        h1)

abbrev answer : Result ServiceOrder → Action ServiceOrder
answer r v = (r, v)

abbrev guarded :
    Result ServiceOrder → String → (ServiceOrder → Action (Unit {0})) → Action (Unit {0})
guarded r saga_id m = answer r >>= λ s. if can_process_saga s saga_id then m s else pure tt

guarded-stale :
    (failure : Option Error) (row : Option ServiceOrder) (saga_id : String)
    (m : ServiceOrder → Action (Unit {0})) (v : World)
    → ((s : ServiceOrder) → row ≡ some s → can_process_saga s saga_id ≡ false)
    → (guarded (find_outcome failure row) saga_id m v).1 ≡ v
unfolding ◌>>=◌
guarded-stale (some e) row saga_id m v stale = refl
guarded-stale none none saga_id m v stale = refl
guarded-stale none (some s) saga_id m v stale = rw (stale s refl) refl

-- An event of a settled saga is found stale: nothing is written, published or sent.
handle_event-stale :
    (env : Env) (event : InventoryEvent) (w : World)
    → Settled (order_of event) (saga_of event) w.orders
    → (handle_event env event w).1 ≡ step w
unfolding handle_succeeded handle_failed ◌>>=◌
handle_event-stale env (succeeded event) w settled =
    guarded-stale (env.find_error w.tick event.order_id) (find_row event.order_id w.orders)
      event.saga_id (λ s. succeed env s event) (step w) settled
handle_event-stale env (failed_event event) w settled =
    guarded-stale (env.find_error w.tick event.order_id) (find_row event.order_id w.orders)
      event.saga_id (λ s. give_up env s event) (step w) settled

-- When a handler has succeeded once, whatever the inventory delivers later for the same saga of the
-- same order (the same event again, or the other answer) writes, publishes and sends nothing.
pub handle_event-once :
    (env : Env) (event again : InventoryEvent) (w : World)
    → (handle_event env event w).0 ≡ ok tt
    → order_of again ≡ order_of event
    → saga_of again ≡ saga_of event
    → (handle_event env again (handle_event env event w).1).1 ≡ step (handle_event env event w).1
handle_event-once env event again w h same_order same_saga =
    handle_event-stale env again (handle_event env event w).1 (
      subst (λ i. Settled i (saga_of again) (handle_event env event w).1.orders) (sym same_order)
        (subst (λ i. Settled (order_of event) i (handle_event env event w).1.orders) (sym same_saga)
          (handle_event-Settled env event w h)))
