-- ===== src/Messaging/Consumers.antt =====
-- `HandleMessage` of the two consumers of the inventory's answers. A message stays in the queue, and
-- is delivered again, unless its deletion is reached.
use oficina_tech_ms_order_se.Shared.{Option, String, if◌then◌else◌, none, some}
use oficina_tech_ms_order_se.Domain.Errors.{external, of_error}
use oficina_tech_ms_order_se.Messaging.Decoding.{Message, Wire, decode_failed, decode_succeeded}
use oficina_tech_ms_order_se.Platform.Monad.{◌>>=◌, ◌>>◌, Action, lift, pure, raise}
use oficina_tech_ms_order_se.Platform.Ports.{Env, step}
use oficina_tech_ms_order_se.Saga.Orchestrator.{handle_failed, handle_succeeded, is_current_saga}

abbrev pub delete_receipt : Wire → Option String → Action (Unit {0})
delete_receipt wire none = raise (external "missing SQS receipt handle")
delete_receipt wire (some receipt) = λ w. (of_error (wire.delete_error w.tick receipt), step w)

abbrev pub delete_message : Wire → Message → Action (Unit {0})
delete_message wire message = delete_receipt wire message.receipt

unfoldable pub handle_success_message : Wire → Env → Message → Action (Unit {0})
handle_success_message wire env message = do
  event ← lift (decode_succeeded wire message)
  current ← is_current_saga env event.order_id event.saga_id
  if current then handle_succeeded env event else pure tt
  delete_message wire message

unfoldable pub handle_failure_message : Wire → Env → Message → Action (Unit {0})
handle_failure_message wire env message = do
  event ← lift (decode_failed wire message)
  current ← is_current_saga env event.order_id event.saga_id
  if current then handle_failed env event else pure tt
  delete_message wire message
