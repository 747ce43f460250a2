-- ===== src/Examples/Sagas.antt =====
-- The saga's theorems at the order that waits for the reservation of its items.
use oficina_tech_ms_order_se.Shared.{
  refl, ◌≡◌, [], arith, false, inr, none, some, true, ◌∷◌, ◌≢◌, ◌⊎◌, inl, sym, ◌∙◌,
}
use oficina_tech_ms_order_se.Domain.Errors.{ok, is_ok, Result, external}
use oficina_tech_ms_order_se.Domain.History.{new_history, History}
use oficina_tech_ms_order_se.Domain.Order.{
  complete_saga, update_status, ServiceOrder, awaiting_inventory, get_product_items, idle,
  is_awaiting_inventory,
}
use oficina_tech_ms_order_se.Domain.Status.{
  can_transition_to, awaiting_payment, canceled, delivered, diagnosing, pending_authorization,
}
use oficina_tech_ms_order_se.Domain.Stock.{
  reserve, determine_inventory_operation, is_no_operation, cancel_confirmed, cancel_reserved,
}
use oficina_tech_ms_order_se.Examples.Data.{calm, waiting, world_of, diagnosed, order_with}
use oficina_tech_ms_order_se.Platform.Monad.{◌>>=◌, World}
use oficina_tech_ms_order_se.Platform.Ports.{step, Env}
use oficina_tech_ms_order_se.Platform.Table.{find_row, save_row}
use oficina_tech_ms_order_se.Saga.Completing.{IsAwaited, handle_succeeded-move_to}
use oficina_tech_ms_order_se.Saga.Orchestrator.{
  failed_event, handle_event, handle_succeeded, succeed, succeeded, has_no_items, start_order_saga,
  cancel_order,
}
use oficina_tech_ms_order_se.Saga.Recording.{conclude, save_saga_history, send_status_update_email}
use oficina_tech_ms_order_se.Saga.Recovery.{
  asks, infer_operation-determine_inventory_operation, recover_awaiting_sagas-start_order_saga,
  recover_awaiting_sagas-cancel_order,
}
use oficina_tech_ms_order_se.Saga.Resent.{CanRecover, Recovers}
use oficina_tech_ms_order_se.Saga.Settling.{handle_event-once, StoredAs}
use oficina_tech_ms_order_se.Saga.Starting.{Awaits, CanStart, request_for, start_order_saga-Awaits}
use oficina_tech_ms_order_se.Saga.Success.{NoFailure, handle_succeeded-StoredAs}
use oficina_tech_ms_order_se.Saga.Values.{
  FailedEvent, SucceededEvent, target_status_for_success, infer_operation, inventory_items,
  StartResult,
}

abbrev reserved : SucceededEvent
reserved = record { saga_id = "saga-1"; order_id = "order-1"; operation = reserve }

abbrev refused : FailedEvent
refused = record {
  saga_id = "saga-1";
  order_id = "order-1";
  operation = reserve;
  reason = "Out of stock";
}

reserved_handled : (handle_event calm (succeeded reserved) (world_of waiting)).0 ≡ ok tt
unfolding handle_succeeded ◌>>=◌ find_row succeed target_status_for_success update_status
    complete_saga conclude save_saga_history can_transition_to save_row send_status_update_email
    new_history
reserved_handled = refl

-- The answer is delivered, and then the opposite answer.
handle_event-once_example :
    (handle_event calm
      (failed_event refused)
      (handle_event calm (succeeded reserved) (world_of waiting)).1).1
    ≡ step (handle_event calm (succeeded reserved) (world_of waiting)).1
handle_event-once_example =
    handle_event-once calm (succeeded reserved) (failed_event refused) (world_of waiting)
      reserved_handled refl refl

diagnosed-CanStart : CanStart calm "order-1" pending_authorization (world_of diagnosed) diagnosed
unfolding find_row inventory_items get_product_items has_no_items
diagnosed-CanStart = record {
  row = refl;
  answers = refl;
  kept = refl;
  free = refl;
  stocked = refl;
  valid = refl;
  identified = refl;
  saves = λ tick t. refl;
}

start_order_saga-Awaits_example :
    (t : ServiceOrder) × Awaits "saga-2" pending_authorization diagnosed t
    × (find_row "order-1"
          (start_order_saga calm "order-1" reserve pending_authorization none
            (world_of diagnosed)).1.orders
        ≡ some t)
    × (((is_ok
              (start_order_saga calm "order-1" reserve pending_authorization none
                (world_of diagnosed)).0
            ≡ true)
          × ((start_order_saga calm "order-1" reserve pending_authorization none
                (world_of diagnosed)).1.requests
              ≡ request_for "saga-2" diagnosed reserve ∷ []))
        ⊎ ((is_ok
                (start_order_saga calm "order-1" reserve pending_authorization none
                  (world_of diagnosed)).0
              ≡ false)
            × ((start_order_saga calm "order-1" reserve pending_authorization none
                  (world_of diagnosed)).1.requests
                ≡ [])))
start_order_saga-Awaits_example =
    start_order_saga-Awaits calm "order-1" reserve pending_authorization none (world_of diagnosed)
      diagnosed diagnosed-CanStart

ask_allowed : can_transition_to diagnosing pending_authorization ≡ true
unfolding can_transition_to
ask_allowed = refl

ask_reserves :
    is_no_operation (determine_inventory_operation diagnosing pending_authorization) ≡ false
unfolding determine_inventory_operation
ask_reserves = refl

diagnosing_apart : diagnosing ≢ awaiting_payment
diagnosing_apart e = ground arith

-- The queue is down when the saga starts, and back for the recovery.
abbrev lost : Env
lost = record calm { publish_error = λ t r. some (external "queue down") }

lost-CanStart : CanStart lost "order-1" pending_authorization (world_of diagnosed) diagnosed
unfolding find_row inventory_items get_product_items has_no_items
lost-CanStart = record {
  row = refl;
  answers = refl;
  kept = refl;
  free = refl;
  stocked = refl;
  valid = refl;
  identified = refl;
  saves = λ tick t. refl;
}

calm-CanRecover :
    (s : ServiceOrder) → is_awaiting_inventory s.saga_status ≡ false → CanRecover calm (s ∷ [])
calm-CanRecover s free = record {
  answers = λ tick. refl;
  takes = λ tick r. refl;
  others = (λ h. let clash : true ≡ false = sym h ∙ free in cc, tt);
}

abbrev after_loss : World
after_loss =
    (start_order_saga lost "order-1" (asks diagnosed pending_authorization) pending_authorization
      none (world_of diagnosed)).1

recover_awaiting_sagas-start_order_saga_example :
    Recovers calm after_loss (request_for "saga-2" diagnosed (asks diagnosed pending_authorization))
recover_awaiting_sagas-start_order_saga_example =
    recover_awaiting_sagas-start_order_saga lost calm "order-1" pending_authorization none
      (world_of diagnosed) after_loss diagnosed lost-CanStart ask_allowed ask_reserves
      diagnosing_apart refl (calm-CanRecover diagnosed refl)

infer_operation-determine_inventory_operation_example :
    infer_operation waiting ≡ ok (determine_inventory_operation diagnosing pending_authorization)
infer_operation-determine_inventory_operation_example =
    infer_operation-determine_inventory_operation waiting pending_authorization refl ask_allowed
      ask_reserves diagnosing_apart

reserved-IsAwaited : IsAwaited calm reserved pending_authorization (world_of waiting) waiting
unfolding find_row
reserved-IsAwaited = record { row = refl; answers = refl; current = refl; towards = refl }

calm-NoFailure : NoFailure calm
calm-NoFailure = record { saves = λ tick t. refl; records = λ tick h. refl }

handle_succeeded-StoredAs_example :
    ((handle_succeeded calm reserved (world_of waiting)).0 ≡ ok tt)
    × StoredAs waiting pending_authorization idle
        (world_of waiting)
        (handle_succeeded calm reserved (world_of waiting)).1
    × ((h : History) × (h.service_order_id ≡ "order-1")
        × (h.status ≡ pending_authorization)
        × ((handle_succeeded calm reserved (world_of waiting)).1.histories ≡ h ∷ []))
handle_succeeded-StoredAs_example =
    handle_succeeded-StoredAs calm reserved (world_of waiting) waiting pending_authorization
      reserved-IsAwaited (inr (refl, ask_allowed)) refl calm-NoFailure

-- A paid order was delivered while its cancellation waited for the inventory.
abbrev overtaken : ServiceOrder
overtaken = order_with delivered awaiting_inventory (some "saga-1") (some canceled)

overtaken-IsAwaited : IsAwaited calm reserved canceled (world_of overtaken) overtaken
unfolding find_row
overtaken-IsAwaited = record { row = refl; answers = refl; current = refl; towards = refl }

cancel_forbidden : can_transition_to delivered canceled ≡ false
unfolding can_transition_to
cancel_forbidden = refl

handle_succeeded-move_to_example :
    (is_ok (handle_succeeded calm reserved (world_of overtaken)).0 ≡ false)
    × ((handle_succeeded calm reserved (world_of overtaken)).1 ≡ step (step (world_of overtaken)))
handle_succeeded-move_to_example =
    handle_succeeded-move_to calm reserved (world_of overtaken) overtaken canceled
      overtaken-IsAwaited refl cancel_forbidden

-- A billed order whose cancellation waits for the inventory.
abbrev unpaid : ServiceOrder
unpaid = order_with awaiting_payment idle none none

unpaid-CanStart : CanStart calm "order-1" canceled (step (world_of unpaid)) unpaid
unfolding find_row inventory_items get_product_items has_no_items
unpaid-CanStart = record {
  row = refl;
  answers = refl;
  kept = refl;
  free = refl;
  stocked = refl;
  valid = refl;
  identified = refl;
  saves = λ tick t. refl;
}

abbrev cancellation : Result StartResult × World
cancellation = cancel_order calm "order-1" none (world_of unpaid)

recover_awaiting_sagas-cancel_order_example :
    (((is_ok cancellation.0 ≡ true)
        × (cancellation.1.requests ≡ request_for "saga-2" unpaid cancel_confirmed ∷ []))
      ⊎ ((is_ok cancellation.0 ≡ false) × (cancellation.1.requests ≡ [])))
    × Recovers calm cancellation.1 (request_for "saga-2" unpaid cancel_reserved)
recover_awaiting_sagas-cancel_order_example =
    recover_awaiting_sagas-cancel_order calm calm "order-1" none (world_of unpaid) cancellation.1
      unpaid refl unpaid-CanStart (inl refl) refl (calm-CanRecover unpaid refl)
