-- ===== src/UseCases/Deleted.antt =====
-- delete_service_order.go and `CancelOrder`: what a deletion that succeeds leaves in the table.
use oficina_tech_ms_order_se.Shared.{
  Bool, Bool-cases, Option, String, ap, arith, false, if◌then◌else◌, inl, inr, none, refl, some,
  sym, true, ◌∙◌, ◌≡◌, ◌⊎◌,
}
use oficina_tech_ms_order_se.Domain.Errors.{ok, ok_injective, service_order_not_found}
use oficina_tech_ms_order_se.Domain.Item.{Clock, Time}
use oficina_tech_ms_order_se.Domain.Order.{
  ServiceOrder, complete_saga, is_awaiting_inventory, order_is_deleted, start_saga,
}
use oficina_tech_ms_order_se.Domain.Status.{
  OrderStatus, authorized, awaiting_payment, canceled, completed, diagnosing, in_progress, paid,
  payment_rejected, pending_authorization, received, status_eq,
}
use oficina_tech_ms_order_se.Domain.Status.Names.{status_eq-eq}
use oficina_tech_ms_order_se.Domain.Stock.{
  StockOperation, cancel_confirmed, cancel_reserved, no_operation,
}
use oficina_tech_ms_order_se.Platform.Monad.{Action, World, lift, raise_if, InventoryRequest}
use oficina_tech_ms_order_se.Platform.Outcomes.{>>=-ok, find_by_id-ok, save_order-ok}
use oficina_tech_ms_order_se.Platform.Ports.{
  Env, find_by_id, generate_uuid, publish_request, read_clock, save_order, step,
}
use oficina_tech_ms_order_se.Platform.Rules.{Quiet-publish_request}
use oficina_tech_ms_order_se.Platform.Table.{find_row_id, save_row}
use oficina_tech_ms_order_se.Saga.Effects.{Quiet-notify, Quiet-save_saga_history}
use oficina_tech_ms_order_se.Saga.Orchestrator.{
  cancel_by_status, cancel_order, check_free, finish_local, finish_transition, has_no_items,
  send_request, start_async, start_order_saga, transition_local,
}
use oficina_tech_ms_order_se.Saga.Recording.{conclude, move_to, save_saga_history}
use oficina_tech_ms_order_se.Saga.Values.{StartResult, inventory_items}
use oficina_tech_ms_order_se.UseCases.Answers.{update_status_ok}
use oficina_tech_ms_order_se.UseCases.Deletion.{
  DeletionOutput, cancel_after_payment, delete_service_order, settle_before,
}
use oficina_tech_ms_order_se.UseCases.Effects.{Quiet-settle_before}

-- The order is canceled, or waits for the inventory to be.
abbrev pub IsCanceled : ServiceOrder → Type 0
IsCanceled t =
    (t.status ≡ canceled)
    ⊎ ((is_awaiting_inventory t.saga_status ≡ true) × (t.saga_target_status ≡ some canceled))

-- The row of that id was written, and is such an order.
abbrev pub Cancels : String → World → World → Type 0
Cancels id w v = (t : ServiceOrder) × (t.id ≡ id) × IsCanceled t × (v.orders ≡ save_row t w.orders)

conclude-ok :
    (env : Env) (s : ServiceOrder) (a b : OrderStatus) (op : StockOperation) (i : String)
    (f n : Option String) (w : World) {u : Unit {0}}
    → (conclude env s a b op i f n w).0 ≡ ok u
    → (conclude env s a b op i f n w).1.orders ≡ save_row s w.orders
unfolding conclude
conclude-ok env s a b op i f n w h =
    let (_, _, h1, e1) = >>=-ok (save_saga_history env s a b op i f n) _ w h in
    let (_, h2, h3, e2) = >>=-ok (save_order env s) _ _ h1 in
    ap (λ v. v.orders) (e1 ∙ e2)
    ∙ (Quiet-notify env s a b).run _
    ∙ save_order-ok env s _ h2
    ∙ ap (save_row s) ((Quiet-save_saga_history env s a b op i f n).run w)

move_to-ok :
    (s : ServiceOrder) (target : OrderStatus) (now : Clock) {m : ServiceOrder}
    → move_to s target now ≡ ok m
    → (m.status ≡ target) × (m.id ≡ s.id)
move_to-ok s target now h = elim (Bool-cases (status_eq s.status target)) [
  | inl at ↦
      let same : s ≡ _ = ok_injective (rw at at h) in
      (sym (ap (λ o. o.status) same) ∙ status_eq-eq s.status target at, sym (ap (λ o. o.id) same))
  | inr off ↦ update_status_ok s target now (rw off at h)
]

complete_saga_keeps :
    (m : ServiceOrder) (now : Time)
    → ((complete_saga m now).status ≡ m.status) × ((complete_saga m now).id ≡ m.id)
unfolding complete_saga
complete_saga_keeps m now = (refl, refl)

finish_local-Cancels :
    (env : Env) (s : ServiceOrder) (op : StockOperation) (n : Option String) (w : World)
    {r : StartResult}
    → (finish_local env s canceled op n w).0 ≡ ok r
    → Cancels s.id w (finish_local env s canceled op n w).1
unfolding transition_local finish_transition
finish_local-Cancels env s op n w h =
    let (_, h1, _, e1) = >>=-ok (transition_local env s canceled op "" n) _ w h in
    let (now, _, h2, e2) = >>=-ok (read_clock env) _ w h1 in
    let (m, moved, h3, e3) = >>=-ok (lift (move_to s canceled now)) _ (step w) h2 in
    let t = complete_saga m (now 2) in
    let (_, h4, _, e4) = >>=-ok (conclude env t s.status canceled op "" none n) _ (step w) h3 in
    let (at, same) = move_to-ok s canceled now moved in
    let (status_kept, id_kept) = complete_saga_keeps m (now 2) in
    (
      t,
      id_kept ∙ same,
      inl (status_kept ∙ at),
      ap (λ v. v.orders) (e1 ∙ e2 ∙ e3 ∙ e4)
          ∙ conclude-ok env t s.status canceled op "" none n (step w) h4,
    )

start_saga_ok :
    (s : ServiceOrder) (i : String) (target : OrderStatus) (n : Option String) (now : Time)
    {t : ServiceOrder}
    → start_saga s i target n now ≡ ok t
    → (t.id ≡ s.id)
      × (is_awaiting_inventory t.saga_status ≡ true)
      × (t.saga_target_status ≡ some target)
unfolding start_saga
start_saga_ok s i target n now h = ground arith

start_async-Cancels :
    (env : Env) (s : ServiceOrder) (op : StockOperation) (n : Option String) (w : World)
    {r : StartResult}
    → (start_async env s op canceled n w).0 ≡ ok r
    → Cancels s.id w (start_async env s op canceled n w).1
unfolding start_async send_request
start_async-Cancels env s op n w h =
    let (i, _, h1, e1) = >>=-ok (generate_uuid env) _ w h in
    let (now, _, h2, e2) = >>=-ok (read_clock env) _ (step w) h1 in
    let (t, made, h3, e3) =
      >>=-ok (lift (start_saga s i canceled n (now 0))) _ (step (step w)) h2 in
    let (_, stored, h4, e4) = >>=-ok (save_order env t) _ (step (step w)) h3 in
    let request : InventoryRequest = record {
      saga_id = i;
      order_id = t.id;
      operation = op;
      items = inventory_items s;
    } in
    let (_, _, _, e5) = >>=-ok (publish_request env request) _ _ h4 in
    let (same, waits, towards) = start_saga_ok s i canceled n (now 0) made in
    (
      t,
      same,
      inr (waits, towards),
      ap (λ v. v.orders) (e1 ∙ e2 ∙ e3 ∙ e4 ∙ e5)
          ∙ (Quiet-publish_request env request).run _
          ∙ save_order-ok env t (step (step w)) stored,
    )

if-Cancels :
    (b : Bool) (m n : Action StartResult) (id : String) (w : World) {r : StartResult}
    → ((m w).0 ≡ ok r → Cancels id w (m w).1)
    → ((n w).0 ≡ ok r → Cancels id w (n w).1)
    → ((if b then m else n) w).0 ≡ ok r
    → Cancels id w ((if b then m else n) w).1
if-Cancels true m n id w f g h = f h
if-Cancels false m n id w f g h = g h

renamed : (w v : World) {i id : String} → i ≡ id → Cancels i w v → Cancels id w v
renamed w v same (t, at, gone, table) = (t, at ∙ same, gone, table)

start_order_saga-Cancels :
    (env : Env) (id : String) (op : StockOperation) (n : Option String) (w : World)
    {r : StartResult}
    → (start_order_saga env id op canceled n w).0 ≡ ok r
    → Cancels id w (start_order_saga env id op canceled n w).1
unfolding start_order_saga
start_order_saga-Cancels env id op n w h =
    let (s, read_row, h1, e1) = >>=-ok (find_by_id env id) _ w h in
    let (_, _, h2, e2) = >>=-ok (lift (check_free s)) _ (step w) h1 in
    let same = find_row_id id w.orders (find_by_id-ok env id w read_row) in
    let (t, at, gone, table) =
      if-Cancels (has_no_items (inventory_items s)) (finish_local env s canceled op n)
        (start_async env s op canceled n) id (step w)
        (λ k.
          renamed (step w) (finish_local env s canceled op n (step w)).1 same
            (finish_local-Cancels env s op n (step w) k))
        (λ k.
          renamed (step w) (start_async env s op canceled n (step w)).1 same
            (start_async-Cancels env s op n (step w) k))
        h2 in
    (t, at, gone, ap (λ v. v.orders) (e1 ∙ e2) ∙ table)

-- `CancelOrder`, for the order that it read.
cancel_by_status-Cancels :
    (env : Env) (id : String) (s : ServiceOrder) (n : Option String) (at : OrderStatus) (w : World)
    {r : StartResult}
    → s.id ≡ id
    → (cancel_by_status env id s n at w).0 ≡ ok r
    → Cancels id w (cancel_by_status env id s n at w).1
cancel_by_status-Cancels env id s n received w same h =
    renamed w (finish_local env s canceled no_operation n w).1 same
      (finish_local-Cancels env s no_operation n w h)
cancel_by_status-Cancels env id s n diagnosing w same h =
    renamed w (finish_local env s canceled no_operation n w).1 same
      (finish_local-Cancels env s no_operation n w h)
cancel_by_status-Cancels env id s n pending_authorization w same h =
    start_order_saga-Cancels env id cancel_reserved n w h
cancel_by_status-Cancels env id s n authorized w same h =
    start_order_saga-Cancels env id cancel_reserved n w h
cancel_by_status-Cancels env id s n in_progress w same h =
    start_order_saga-Cancels env id cancel_reserved n w h
cancel_by_status-Cancels env id s n completed w same h =
    start_order_saga-Cancels env id cancel_confirmed n w h
cancel_by_status-Cancels env id s n awaiting_payment w same h =
    start_order_saga-Cancels env id cancel_confirmed n w h
cancel_by_status-Cancels env id s n payment_rejected w same h =
    start_order_saga-Cancels env id cancel_confirmed n w h
cancel_by_status-Cancels env id s n paid w same h =
    start_order_saga-Cancels env id cancel_confirmed n w h
cancel_by_status-Cancels env id s n _ w same h = cc

-- A deletion that succeeds writes the row of that id, canceled or waiting to be, and no other.
pub delete_service_order-Cancels :
    (env : Env) (id : String) (n : Option String) (w : World) {out : DeletionOutput}
    → (delete_service_order env id n w).0 ≡ ok out
    → Cancels id w (delete_service_order env id n w).1
unfolding delete_service_order cancel_after_payment cancel_order
delete_service_order-Cancels env id n w h =
    let (s, _, h1, e1) = >>=-ok (find_by_id env id) _ w h in
    let (_, _, h2, e2) =
      >>=-ok (raise_if (order_is_deleted s) service_order_not_found) _ (step w) h1 in
    let (_, _, h3, e3) = >>=-ok (settle_before env s s.status) _ (step w) h2 in
    let u = (settle_before env s s.status (step w)).1 in
    let (_, h4, _, e4) = >>=-ok (cancel_order env id n) _ u h3 in
    let (t, read_row, h5, e5) = >>=-ok (find_by_id env id) _ u h4 in
    let (_, _, h6, e6) = >>=-ok (lift (check_free t)) _ (step u) h5 in
    let same = find_row_id id u.orders (find_by_id-ok env id u read_row) in
    let (row, row_id, gone, table) =
      cancel_by_status-Cancels env id t n t.status (step u) same h6 in
    (
      row,
      row_id,
      gone,
      ap (λ v. v.orders) (e1 ∙ e2 ∙ e3 ∙ e4 ∙ e5 ∙ e6)
          ∙ table
          ∙ ap (save_row row) ((Quiet-settle_before env s s.status).run (step w)),
    )
