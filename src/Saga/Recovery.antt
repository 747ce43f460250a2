-- ===== src/Saga/Recovery.antt =====
-- The recovery of sagas whose order still waits: what it publishes.
use mathlib.Core.Path.{subst}
use oficina_tech_ms_order_se.Shared.{
  Option, String, [], ap, arith, false, none, refl, some, true, ◌++◌, ◌+◌, ◌∙◌, ◌∷◌, ◌≡◌, ◌≢◌, inl,
  inr, ◌⊎◌,
}
use oficina_tech_ms_order_se.Domain.Errors.{ok, is_ok}
use oficina_tech_ms_order_se.Domain.Order.{ServiceOrder, get_product_items}
use oficina_tech_ms_order_se.Domain.Status.{
  OrderStatus, awaiting_payment, can_transition_to, canceled, payment_rejected,
}
use oficina_tech_ms_order_se.Domain.Stock.{
  StockOperation, determine_inventory_operation, is_no_operation, cancel_confirmed, cancel_reserved,
}
use oficina_tech_ms_order_se.Platform.Monad.{World, lift}
use oficina_tech_ms_order_se.Platform.Outcomes.{>>=_resumed, find_by_id_found}
use oficina_tech_ms_order_se.Platform.Ports.{Env, step, find_by_id}
use oficina_tech_ms_order_se.Saga.Orchestrator.{
  start_order_saga, cancel_by_status, cancel_order, check_free,
}
use oficina_tech_ms_order_se.Saga.Resent.{CanRecover, Recovers, recover_awaiting_sagas-Recovers}
use oficina_tech_ms_order_se.Saga.Starting.{
  CanStart, request_for, start_order_saga-Awaits, as_started, check_free_ok,
  start_order_saga-as_started,
}
use oficina_tech_ms_order_se.Saga.Values.{infer_operation, inventory_items}

inferred :
    (s : ServiceOrder) (old target : OrderStatus)
    → s.saga_target_status ≡ some target
    → s.status ≡ old
    → can_transition_to old target ≡ true
    → is_no_operation (determine_inventory_operation old target) ≡ false
    → old ≢ awaiting_payment
    → infer_operation s ≡ ok (determine_inventory_operation old target)
unfolding infer_operation determine_inventory_operation can_transition_to
inferred s awaiting_payment target t e can op n = absurd (n refl)
inferred s old target t e can op n = rw (t, e) (ground (arith, can, op))

-- The operation that the recovery infers for a waiting order is the one that
-- `DetermineInventoryOperation` names for the transition, where the transition is permitted and asks
-- for an operation, and the order is not in AWAITING_PAYMENT.
pub infer_operation-determine_inventory_operation :
    (s : ServiceOrder) (target : OrderStatus)
    → s.saga_target_status ≡ some target
    → can_transition_to s.status target ≡ true
    → is_no_operation (determine_inventory_operation s.status target) ≡ false
    → s.status ≢ awaiting_payment
    → infer_operation s ≡ ok (determine_inventory_operation s.status target)
infer_operation-determine_inventory_operation s target t can op n =
    inferred s s.status target t refl can op n

-- The operation that the domain names for a transition.
abbrev pub asks : ServiceOrder → OrderStatus → StockOperation
asks s target = determine_inventory_operation s.status target

request_kept :
    (env : Env) (target : OrderStatus) (notes : Option String) (w : World) (s : ServiceOrder)
    (saga_id : String) (op : StockOperation)
    → request_for saga_id (as_started env target notes w s) op ≡ request_for saga_id s op
unfolding inventory_items get_product_items
request_kept env target notes w s saga_id op = refl

-- A saga of a permitted transition that `DetermineInventoryOperation` names an operation for, out of
-- any status but AWAITING_PAYMENT, and that is started with this operation, is not lost with its
-- message: in any state with the table that `StartSaga` leaves, whether or not it published, a
-- recovery that the database and the queue answer, and that stops at no other waiting order,
-- succeeds and publishes the request of the same saga, operation and items.
pub recover_awaiting_sagas-start_order_saga :
    (env later : Env) (id : String) (target : OrderStatus) (notes : Option String) (w v : World)
    (s : ServiceOrder)
    → CanStart env id target w s
    → can_transition_to s.status target ≡ true
    → is_no_operation (asks s target) ≡ false
    → s.status ≢ awaiting_payment
    → v.orders ≡ (start_order_saga env id (asks s target) target notes w).1.orders
    → CanRecover later w.orders
    → Recovers later v (request_for (env.new_uuid (w.tick + 1)) s (asks s target))
recover_awaiting_sagas-start_order_saga env later id target notes w v s c can op n left ready =
    let t = as_started env target notes w s in
    let expected = asks s target in
    let saga_id = env.new_uuid (w.tick + 1) in
    let infers : infer_operation t ≡ ok expected = inferred t s.status target refl refl can op n in
    subst (Recovers later v) (request_kept env target notes w s saga_id expected) (
      recover_awaiting_sagas-Recovers later v w.orders t saga_id expected ready
        (left ∙ start_order_saga-as_started env id expected target notes w s c) refl refl infers)

inferred_cancellation :
    (s : ServiceOrder)
    → (s.status ≡ awaiting_payment) ⊎ (s.status ≡ payment_rejected)
    → s.saga_target_status ≡ some canceled
    → infer_operation s ≡ ok cancel_reserved
unfolding infer_operation
inferred_cancellation s (inl at) t = ground arith
inferred_cancellation s (inr at) t = ground arith

confirms :
    (env : Env) (id : String) (s : ServiceOrder) (notes : Option String)
    → (s.status ≡ awaiting_payment) ⊎ (s.status ≡ payment_rejected)
    → cancel_by_status env id s notes s.status
      ≡ start_order_saga env id cancel_confirmed canceled notes
confirms env id s notes (inl at) = ap (cancel_by_status env id s notes) at
confirms env id s notes (inr at) = ap (cancel_by_status env id s notes) at

cancel_order_ran :
    (env : Env) (id : String) (notes : Option String) (w : World) (s : ServiceOrder)
    → env.find_error w.tick id ≡ none
    → CanStart env id canceled (step w) s
    → (s.status ≡ awaiting_payment) ⊎ (s.status ≡ payment_rejected)
    → cancel_order env id notes w ≡ start_order_saga env id cancel_confirmed canceled notes (step w)
unfolding cancel_order
cancel_order_ran env id notes w s answers c at =
    >>=_resumed (find_by_id env id) _ w (find_by_id_found env id w answers c.row)
    ∙ >>=_resumed (lift (check_free s)) _ (step w) (check_free_ok s c.kept c.free)
    ∙ ap (λ m. m (step w)) (confirms env id s notes at)

-- For an order in AWAITING_PAYMENT or PAYMENT_REJECTED whose cancellation can start, `CancelOrder`
-- publishes the request for CANCEL_CONFIRMED, or fails and publishes nothing; in any state with the
-- table that it leaves, a recovery that the database and the queue answer, and that stops at no other
-- waiting order, publishes a request of the same saga for CANCEL_RESERVED.
pub recover_awaiting_sagas-cancel_order :
    (env later : Env) (id : String) (notes : Option String) (w v : World) (s : ServiceOrder)
    → env.find_error w.tick id ≡ none
    → CanStart env id canceled (step w) s
    → (s.status ≡ awaiting_payment) ⊎ (s.status ≡ payment_rejected)
    → v.orders ≡ (cancel_order env id notes w).1.orders
    → CanRecover later w.orders
    → (((is_ok (cancel_order env id notes w).0 ≡ true)
          × ((cancel_order env id notes w).1.requests
              ≡ w.requests ++ request_for (env.new_uuid (w.tick + 1 + 1)) s cancel_confirmed ∷ []))
        ⊎ ((is_ok (cancel_order env id notes w).0 ≡ false)
            × ((cancel_order env id notes w).1.requests ≡ w.requests)))
      × Recovers later v (request_for (env.new_uuid (w.tick + 1 + 1)) s cancel_reserved)
recover_awaiting_sagas-cancel_order env later id notes w v s answers c at left ready =
    let ran = cancel_order_ran env id notes w s answers c at in
    let t = as_started env canceled notes (step w) s in
    let saga_id = env.new_uuid (w.tick + 1 + 1) in
    let (_, _, _, outcome) =
      start_order_saga-Awaits env id cancel_confirmed canceled notes (step w) s c in
    (
      rw ran outcome,
      subst (Recovers later v) (request_kept env canceled notes (step w) s saga_id cancel_reserved)
          (recover_awaiting_sagas-Recovers later v w.orders t saga_id cancel_reserved ready
            (left
              ∙ ap (λ r. r.1.orders) ran
              ∙ start_order_saga-as_started env id cancel_confirmed canceled notes (step w) s c)
            refl refl (inferred_cancellation t at refl)),
    )
