-- ===== src/Saga/Completing.antt =====
-- The success of a saga: when it is taken, what it leaves, and when it can never be taken.
use oficina_tech_ms_order_se.Shared.{
  ap, arith, false, if◌then◌else◌, none, refl, some, true, ◌+◌, ◌∙◌, ◌≡◌,
}
use oficina_tech_ms_order_se.Domain.Errors.{Error, Result, err, is_ok, ok}
use oficina_tech_ms_order_se.Domain.Item.{Clock}
use oficina_tech_ms_order_se.Domain.Order.{ServiceOrder, can_process_saga, update_status}
use oficina_tech_ms_order_se.Domain.Status.{OrderStatus, can_transition_to, status_eq}
use oficina_tech_ms_order_se.Domain.Stock.{StockOperation}
use oficina_tech_ms_order_se.Platform.Monad.{World, lift, pure}
use oficina_tech_ms_order_se.Platform.Outcomes.{>>=_halted, >>=_resumed, find_by_id_found}
use oficina_tech_ms_order_se.Platform.Ports.{Env, find_by_id, read_clock, step}
use oficina_tech_ms_order_se.Platform.Table.{find_row}
use oficina_tech_ms_order_se.Saga.Orchestrator.{handle_succeeded, succeed}
use oficina_tech_ms_order_se.Saga.Recording.{move_to}
use oficina_tech_ms_order_se.Saga.Values.{SucceededEvent, target_status_for_success}

-- An answer that finds the order waiting for it: the order, and the state that the table leaves.
pub record IsAwaited (env : Env) (event : SucceededEvent) (target : OrderStatus) (w : World)
    (s : ServiceOrder) : Type 0 where
  pub row : find_row event.order_id w.orders ≡ some s
  pub answers : env.find_error w.tick event.order_id ≡ none
  pub current : can_process_saga s event.saga_id ≡ true
  pub towards : s.saga_target_status ≡ some target

pub succeed_reached :
    (env : Env) (event : SucceededEvent) (target : OrderStatus) (w : World) (s : ServiceOrder)
    → IsAwaited env event target w s
    → handle_succeeded env event w ≡ succeed env s event (step w)
unfolding handle_succeeded
succeed_reached env event target w s c =
    >>=_resumed (find_by_id env event.order_id) _ w
      (find_by_id_found env event.order_id w c.answers c.row)
    ∙ ap (λ b. (if b then succeed env s event else pure tt) (step w)) c.current

pub target_known :
    (s : ServiceOrder) (op : StockOperation) {target : OrderStatus}
    → s.saga_target_status ≡ some target
    → target_status_for_success s op ≡ ok target
unfolding target_status_for_success
target_known s op h = ground arith

move_to_refused :
    (s : ServiceOrder) (target : OrderStatus) (now : Clock)
    → status_eq s.status target ≡ false
    → can_transition_to s.status target ≡ false
    → is_ok (move_to s target now) ≡ false
unfolding update_status
move_to_refused s target now other refused = ground arith

failed_with : {A : Type 0} (r : Result A) → is_ok r ≡ false → (e : Error) × (r ≡ err e)
failed_with (err e) h = (e, refl)
failed_with (ok a) h = cc

-- A success that finds the order waiting for it, with a target that is neither the order's status nor
-- one that the workflow permits from there, is refused, and nothing is written: the order goes on
-- waiting.
pub handle_succeeded-move_to :
    (env : Env) (event : SucceededEvent) (w : World) (s : ServiceOrder) (target : OrderStatus)
    → IsAwaited env event target w s
    → status_eq s.status target ≡ false
    → can_transition_to s.status target ≡ false
    → (is_ok (handle_succeeded env event w).0 ≡ false)
      × ((handle_succeeded env event w).1 ≡ step (step w))
unfolding succeed
handle_succeeded-move_to env event w s target c other refused =
    let now = env.now (w.tick + 1) in
    let (e, stuck) =
      failed_with (move_to s target now) (move_to_refused s target now other refused) in
    let ran : handle_succeeded env event w ≡ (err e, step (step w)) =
      succeed_reached env event target w s c
      ∙ >>=_resumed (lift (target_status_for_success s event.operation)) _ (step w)
          (target_known s event.operation c.towards)
      ∙ >>=_resumed (read_clock env) _ (step w) refl
      ∙ >>=_halted (lift (move_to s target now)) _ (step (step w)) stuck in
    (ap (λ r. is_ok r.0) ran, ap (λ r. r.1) ran)
