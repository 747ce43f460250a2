-- ===== src/Saga/Success.antt =====
-- The success of a saga where no port fails: it is taken, and it is recorded.
use oficina_tech_ms_order_se.Shared.{
  Option, String, [], ap, arith, false, is_empty, none, refl, true, ℕ, ◌++◌, ◌+◌, ◌∙◌, ◌∷◌, ◌≡◌,
  ◌⊎◌,
}
use oficina_tech_ms_order_se.Domain.Errors.{Result, err, is_ok, ok}
use oficina_tech_ms_order_se.Domain.History.{History, Metadata, new_history}
use oficina_tech_ms_order_se.Domain.Item.{Clock, Time}
use oficina_tech_ms_order_se.Domain.Order.{ServiceOrder, complete_saga, idle, update_status}
use oficina_tech_ms_order_se.Domain.Status.{OrderStatus, can_transition_to, is_valid, status_eq}
use oficina_tech_ms_order_se.Domain.Stock.{StockOperation}
use oficina_tech_ms_order_se.Platform.Monad.{◌>>=◌, World, lift}
use oficina_tech_ms_order_se.Platform.Outcomes.{>>=_resumed, save_order_ran}
use oficina_tech_ms_order_se.Platform.Ports.{Env, read_clock, save_history_record, save_order, step}
use oficina_tech_ms_order_se.Platform.Table.{save_row}
use oficina_tech_ms_order_se.Saga.Completing.{IsAwaited, succeed_reached, target_known}
use oficina_tech_ms_order_se.Saga.Orchestrator.{handle_succeeded, succeed}
use oficina_tech_ms_order_se.Saga.Recording.{
  conclude, move_to, notify, save_saga_history, send_status_update_email,
}
use oficina_tech_ms_order_se.Saga.Settling.{StoredAs, move_to_complete}
use oficina_tech_ms_order_se.Saga.Values.{SucceededEvent, saga_metadata, target_status_for_success}

-- The record of a step of the saga.
abbrev history_of :
    ServiceOrder
    → OrderStatus
    → OrderStatus
    → StockOperation
    → String
    → Option String
    → Option String
    → Clock
    → History
history_of s a b op i f n now = record {
  id = "";
  service_order_id = s.id;
  metadata = saga_metadata s a b op i f n (now 0);
  status = b;
  created_at = now 1;
}

abbrev recorded : History → World → World
recorded h w = step (record (step w) { histories = w.histories ++ h ∷ [] })

save_history_ran :
    (env : Env) (h : History) (w : World)
    → env.history_error w.tick h ≡ none
    → save_history_record env h w ≡ (ok tt, step (record w { histories = w.histories ++ h ∷ [] }))
save_history_ran env h w fine = rw fine refl

new_history_ok :
    (id : String) (m : Metadata) (b : OrderStatus) (now : Time)
    → is_empty id ≡ false
    → new_history id m b now
      ≡ ok (record { id = ""; service_order_id = id; metadata = m; status = b; created_at = now })
unfolding new_history
new_history_ok id m b now named = rw named refl

save_saga_history_ran :
    (env : Env) (s : ServiceOrder) (a b : OrderStatus) (op : StockOperation) (i : String)
    (f n : Option String) (w : World)
    → is_empty s.id ≡ false
    → ((tick : ℕ) (h : History) → env.history_error tick h ≡ none)
    → save_saga_history env s a b op i f n w
      ≡ (ok tt, recorded (history_of s a b op i f n (env.now w.tick)) w)
unfolding save_saga_history
save_saga_history_ran env s a b op i f n w named fine =
    >>=_resumed (read_clock env) _ w refl
    ∙ >>=_resumed (lift (new_history s.id _ b _)) _ (step w) (new_history_ok s.id _ b _ named)
    ∙ save_history_ran env (history_of s a b op i f n (env.now w.tick)) (step w) (fine _ _)

notify_ends :
    (env : Env) (s : ServiceOrder) (a b : OrderStatus) (w : World)
    → ((notify env s a b w).0 ≡ ok tt)
      × ((notify env s a b w).1.orders ≡ w.orders)
      × ((notify env s a b w).1.histories ≡ w.histories)
unfolding send_status_update_email ◌>>=◌
notify_ends env s a b w = ground arith

-- No port of the database fails.
pub record NoFailure (env : Env) : Type 0 where
  pub saves : (tick : ℕ) (t : ServiceOrder) → env.save_error tick t ≡ none
  pub records : (tick : ℕ) (h : History) → env.history_error tick h ≡ none

conclude_ran :
    (env : Env) (s : ServiceOrder) (a b : OrderStatus) (op : StockOperation) (i : String)
    (f n : Option String) (w : World)
    → is_empty s.id ≡ false
    → NoFailure env
    → ((conclude env s a b op i f n w).0 ≡ ok tt)
      × ((conclude env s a b op i f n w).1.orders ≡ save_row s w.orders)
      × ((conclude env s a b op i f n w).1.histories
          ≡ w.histories ++ history_of s a b op i f n (env.now w.tick) ∷ [])
unfolding conclude
conclude_ran env s a b op i f n w named fine =
    let h = history_of s a b op i f n (env.now w.tick) in
    let v = recorded h w in
    let kept = save_saga_history_ran env s a b op i f n w named fine.records in
    let stored = save_order_ran env s v (fine.saves v.tick s) in
    let u = step (record v { orders = save_row s v.orders }) in
    let ran : conclude env s a b op i f n w ≡ notify env s a b u =
      >>=_resumed (save_saga_history env s a b op i f n) _ w (ap (λ r. r.0) kept)
      ∙ ap (λ r. (save_order env s >>= λ _. notify env s a b) r.1) kept
      ∙ >>=_resumed (save_order env s) (λ _. notify env s a b) v (ap (λ r. r.0) stored)
      ∙ ap (λ r. notify env s a b r.1) stored in
    let (done, orders, histories) = notify_ends env s a b u in
    (
      ap (λ r. r.0) ran ∙ done,
      ap (λ r. r.1.orders) ran ∙ orders,
      ap (λ r. r.1.histories) ran ∙ histories,
    )

-- The target is the order's status already, or a status that the workflow permits from there.
abbrev IsReachable : ServiceOrder → OrderStatus → Type 0
IsReachable s target =
    (status_eq s.status target ≡ true)
    ⊎ ((is_valid target ≡ true) × (can_transition_to s.status target ≡ true))

move_to_permitted :
    (s : ServiceOrder) (target : OrderStatus) (now : Clock)
    → IsReachable s target
    → is_ok (move_to s target now) ≡ true
unfolding update_status
move_to_permitted s target now r = ground arith

value_of_ok : {A : Type 0} (r : Result A) → is_ok r ≡ true → (a : A) × (r ≡ ok a)
value_of_ok (err e) h = cc
value_of_ok (ok a) h = (a, refl)

-- Where the database works, the success of the saga that an order with an id waits for, with a target
-- that can be reached, is taken: the handler succeeds, the order is stored with the target as its status and
-- with no saga, and one history is added, for this order and with this status.
pub handle_succeeded-StoredAs :
    (env : Env) (event : SucceededEvent) (w : World) (s : ServiceOrder) (target : OrderStatus)
    → IsAwaited env event target w s
    → IsReachable s target
    → is_empty s.id ≡ false
    → NoFailure env
    → ((handle_succeeded env event w).0 ≡ ok tt)
      × StoredAs s target idle w (handle_succeeded env event w).1
      × ((h : History) × (h.service_order_id ≡ s.id)
          × (h.status ≡ target)
          × ((handle_succeeded env event w).1.histories ≡ w.histories ++ h ∷ []))
unfolding succeed
handle_succeeded-StoredAs env event w s target c reach named fine =
    let now = env.now (w.tick + 1) in
    let (m, moved) = value_of_ok (move_to s target now) (move_to_permitted s target now reach) in
    let t = complete_saga m (now 2) in
    let (status, saga, id) = move_to_complete s target now (now 2) moved in
    let ran : handle_succeeded env event w
        ≡ conclude env t s.status target event.operation event.saga_id none s.saga_notes
            (step (step w)) =
      succeed_reached env event target w s c
      ∙ >>=_resumed (lift (target_status_for_success s event.operation)) _ (step w)
          (target_known s event.operation c.towards)
      ∙ >>=_resumed (read_clock env) _ (step w) refl
      ∙ >>=_resumed (lift (move_to s target now)) _ (step (step w)) moved in
    let (done, orders, histories) =
      conclude_ran env t s.status target event.operation event.saga_id none s.saga_notes
        (step (step w)) (ap is_empty id ∙ named) fine in
    (
      ap (λ r. r.0) ran ∙ done,
      (t, status, saga, id, ap (λ r. r.1.orders) ran ∙ orders),
      (_, id, refl, ap (λ r. r.1.histories) ran ∙ histories),
    )
