-- ===== src/Examples/Messages.antt =====
-- The theorems on the consumers at a message of each kind.
use oficina_tech_ms_order_se.Shared.{String, refl, some, ◌≡◌}
use oficina_tech_ms_order_se.Domain.Errors.{ok}
use oficina_tech_ms_order_se.Domain.History.{new_history}
use oficina_tech_ms_order_se.Domain.Order.{complete_saga, fail_saga, update_status}
use oficina_tech_ms_order_se.Domain.Status.{can_transition_to}
use oficina_tech_ms_order_se.Domain.Stock.{operation_of}
use oficina_tech_ms_order_se.Examples.Data.{calm, waiting, world_of, plain_wire}
use oficina_tech_ms_order_se.Messaging.Acknowledged.{
  handle_failure_message-Settled, handle_success_message-Settled,
}
use oficina_tech_ms_order_se.Messaging.Consumers.{handle_failure_message, handle_success_message}
use oficina_tech_ms_order_se.Messaging.Decoding.{Message, decode_failed, decode_succeeded}
use oficina_tech_ms_order_se.Platform.Monad.{◌>>=◌}
use oficina_tech_ms_order_se.Platform.Table.{find_row, save_row}
use oficina_tech_ms_order_se.Saga.Orchestrator.{
  give_up, handle_failed, handle_succeeded, is_current_saga, succeed,
}
use oficina_tech_ms_order_se.Saga.Recording.{conclude, save_saga_history, send_status_update_email}
use oficina_tech_ms_order_se.Saga.Settling.{Settled}
use oficina_tech_ms_order_se.Saga.Values.{FailedEvent, SucceededEvent, target_status_for_success}

abbrev message_of : String → Message
message_of name = record { body = some name; receipt = some "receipt-1" }

success_handled :
    (handle_success_message plain_wire calm
      (message_of "OrderInventoryOperationSucceeded")
      (world_of waiting)).0
    ≡ ok tt
unfolding handle_success_message decode_succeeded is_current_saga handle_succeeded ◌>>=◌ find_row
    succeed target_status_for_success update_status complete_saga conclude save_saga_history
    can_transition_to save_row send_status_update_email new_history operation_of
success_handled = refl

handle_success_message-Settled_example :
    (event : SucceededEvent) × (decode_succeeded plain_wire
        (message_of "OrderInventoryOperationSucceeded")
      ≡ ok event)
    × Settled event.order_id event.saga_id
        (handle_success_message plain_wire calm
          (message_of "OrderInventoryOperationSucceeded")
          (world_of waiting)).1.orders
handle_success_message-Settled_example =
    handle_success_message-Settled plain_wire calm (message_of "OrderInventoryOperationSucceeded")
      (world_of waiting) success_handled

failure_handled :
    (handle_failure_message plain_wire calm
      (message_of "OrderInventoryOperationFailed")
      (world_of waiting)).0
    ≡ ok tt
unfolding handle_failure_message decode_failed is_current_saga handle_failed ◌>>=◌ find_row give_up
    fail_saga conclude save_saga_history save_row send_status_update_email new_history operation_of
failure_handled = refl

handle_failure_message-Settled_example :
    (event : FailedEvent) × (decode_failed plain_wire (message_of "OrderInventoryOperationFailed")
      ≡ ok event)
    × Settled event.order_id event.saga_id
        (handle_failure_message plain_wire calm
          (message_of "OrderInventoryOperationFailed")
          (world_of waiting)).1.orders
handle_failure_message-Settled_example =
    handle_failure_message-Settled plain_wire calm (message_of "OrderInventoryOperationFailed")
      (world_of waiting) failure_handled
