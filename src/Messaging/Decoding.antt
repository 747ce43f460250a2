-- ===== src/Messaging/Decoding.antt =====
-- `decodeSucceeded`, `decodeFailed` and `decodeCustomerDeleted` of internal/messaging/consumers.
use oficina_tech_ms_order_se.Shared.{Bool, Option, String, is_empty, none, not, some, str_eq, ℕ}
use oficina_tech_ms_order_se.Domain.Errors.{◌>>=◌, ◌>>◌, Error, Result, err, external, fail_if, ok}
use oficina_tech_ms_order_se.Domain.Stock.{operation_of}
use oficina_tech_ms_order_se.Saga.Values.{FailedEvent, SucceededEvent}

-- A message of the queue.
pub record Message : Type 0 where
  pub body : Option String
  pub receipt : Option String

-- The fields of the two events as JSON gives them; a missing one is empty.
pub record RawEvent : Type 0 where
  pub event : String
  pub saga_id : String
  pub order_id : String
  pub operation : String
  pub reason : String
  pub occurred_at : String

-- `events.CustomerDeleted`; the e-mail address is not read.
pub record CustomerDeleted : Type 0 where
  pub event : String
  pub customer_id : String
  pub occurred_at : String

-- What comes from the libraries: `json.Unmarshal`, the test of `time.Parse`, and the queue's answer
-- to a deletion.
pub record Wire : Type 0 where
  pub unmarshal : String → Result RawEvent
  pub unmarshal_customer : String → Result CustomerDeleted
  pub is_time : String → Bool
  pub delete_error : ℕ → String → Option Error

abbrev unmarshal_body : Wire → Option String → Result RawEvent
unmarshal_body wire none = err (external "empty SQS message body")
unmarshal_body wire (some contents) = wire.unmarshal contents

unfoldable pub decode_succeeded : Wire → Message → Result SucceededEvent
unfolding operation_of
decode_succeeded wire message = do
  raw ← unmarshal_body wire message.body
  fail_if (not (str_eq raw.event "OrderInventoryOperationSucceeded")) (external "unexpected event")
  fail_if (not (wire.is_time raw.occurred_at)) (external "invalid occurred_at")
  ok (record {
    saga_id = raw.saga_id;
    order_id = raw.order_id;
    operation = operation_of raw.operation;
  })

unfoldable pub decode_failed : Wire → Message → Result FailedEvent
unfolding operation_of
decode_failed wire message = do
  raw ← unmarshal_body wire message.body
  fail_if (not (str_eq raw.event "OrderInventoryOperationFailed")) (external "unexpected event")
  fail_if (is_empty raw.reason) (external "missing failure reason")
  fail_if (not (wire.is_time raw.occurred_at)) (external "invalid occurred_at")
  ok (record {
    saga_id = raw.saga_id;
    order_id = raw.order_id;
    operation = operation_of raw.operation;
    reason = raw.reason;
  })

abbrev unmarshal_deletion : Wire → Option String → Result CustomerDeleted
unmarshal_deletion wire none = err (external "empty SQS message body")
unmarshal_deletion wire (some contents) = wire.unmarshal_customer contents

unfoldable pub decode_customer_deleted : Wire → Message → Result CustomerDeleted
decode_customer_deleted wire message = do
  raw ← unmarshal_deletion wire message.body
  fail_if (not (str_eq raw.event "CustomerDeleted")) (external "unexpected event")
  fail_if (is_empty raw.customer_id) (external "missing customer_id")
  fail_if (not (wire.is_time raw.occurred_at)) (external "invalid occurred_at")
  ok raw
