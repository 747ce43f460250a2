-- ===== src/Http/Handlers.antt =====
-- service_order_handler.go: the handlers that take no fields to be validated. A reply carries the
-- output of the use case where the response copies its fields. The test of a UUID and the decoding of
-- a body come from outside; a text of the request's context that is missing is empty.
use oficina_tech_ms_order_se.Shared.{
  Bool, List, Option, String, [], if◌then◌else◌, is_empty, none, not, some, str_eq, ℕ, ◌&&◌, ◌∷◌,
}
use oficina_tech_ms_order_se.Domain.Errors.{Error, err, ok, Result}
use oficina_tech_ms_order_se.Domain.History.{History}
use oficina_tech_ms_order_se.Domain.Order.{SagaStatus, ServiceOrder}
use oficina_tech_ms_order_se.Domain.Status.{OrderStatus}
use oficina_tech_ms_order_se.Http.Mapping.{map_domain_error, message}
use oficina_tech_ms_order_se.Platform.Monad.{World, Action}
use oficina_tech_ms_order_se.Platform.Ports.{Env}
use oficina_tech_ms_order_se.Queries.Reading.{
  ListInput, OrderView, get_all_service_orders, get_service_order, get_service_order_history,
}
use oficina_tech_ms_order_se.UseCases.Advance.{advance_service_order_status}
use oficina_tech_ms_order_se.UseCases.Authorization.{respond_to_authorization}
use oficina_tech_ms_order_se.UseCases.Deletion.{DeletionOutput, delete_service_order}
use oficina_tech_ms_order_se.UseCases.Steps.{StepOutput}

pub data Payload : Type 0 where
  order_payload : ServiceOrder → Payload
  view_payload : OrderView → Payload
  list_payload : List OrderView → Payload
  history_payload : List History → Payload
  message_payload : String → Payload
  -- A message and, where there is one, `saga_id`.
  canceling_payload : String → Option String → Payload
  -- The same, with `status` and `saga_status`.
  started_payload : String → OrderStatus → SagaStatus → Option String → Payload
  -- A message, `status`, `saga_status` and `payment_url`.
  payable_payload : String → OrderStatus → SagaStatus → String → Payload

pub record ErrorDetail : Type 0 where
  pub code : String
  pub message : String

-- The status and the envelope.
pub record Reply : Type 0 where
  pub status : ℕ
  pub payload : Option Payload
  pub errors : List ErrorDetail

abbrev pub respond_success : ℕ → Payload → Reply
respond_success status payload = record { status = status; payload = some payload; errors = [] }

abbrev pub respond_error_envelope : ℕ → String → String → Reply
respond_error_envelope status code message =
    let detail : ErrorDetail = record { code = code; message = message } in
    record { status = status; payload = none; errors = detail ∷ [] }

-- A handler replies, and may change the state.
abbrev pub Handler : Type 0
Handler = World → Reply × World

unfoldable pub respond_mapped : Error → Reply
unfolding map_domain_error message
respond_mapped failure =
    let mapped = map_domain_error failure in
    respond_error_envelope mapped.status_code mapped.code (message failure)

-- `if err != nil { … MapDomainError … }`, and the reply to an output.
abbrev pub reply_to : {A : Type 0} → Result A → (A → Reply) → Reply
reply_to (err failure) reply = respond_mapped failure
reply_to (ok output) reply = reply output

unfoldable pub answer_with : {A : Type 0} → Action A → (A → Reply) → Handler
unfolding respond_mapped
answer_with use_case reply w = (reply_to (use_case w).0 reply, (use_case w).1)

-- `if err := ValidateUUID(id)`.
unfoldable pub with_uuid : (String → Bool) → String → String → Handler → Handler
with_uuid is_uuid id complaint next w =
    if is_uuid id then next w else (respond_error_envelope 400 "INVALID_UUID" complaint, w)

abbrev pub bad_id : String
bad_id = "Invalid service order ID format"

abbrev pub changed_reply : StepOutput → Reply
changed_reply output = respond_success 200 (order_payload output.order)

abbrev pub started_reply : StepOutput → String → Reply
started_reply output started =
    respond_success 202
      (started_payload started output.order.status output.order.saga_status output.saga_id)

unfoldable pub order_reply : StepOutput → String → Reply
order_reply output started =
    if output.async then started_reply output started else changed_reply output

abbrev pub payment_reply : StepOutput → Option String → Reply
payment_reply output none = changed_reply output
payment_reply output (some url) = respond_success 202 (
    payable_payload "Service order awaiting payment" output.order.status output.order.saga_status
      url)

unfoldable pub advance_reply : StepOutput → Reply
advance_reply output =
    if output.async
    then started_reply output "Service order inventory saga started"
    else payment_reply output output.payment_url

unfoldable pub deletion_reply : DeletionOutput → Reply
deletion_reply output =
    if output.async
    then respond_success 202
        (canceling_payload "Service order cancellation saga started" output.saga_id)
    else respond_success 200 (message_payload "Service order canceled successfully")

pub record AuthorizeServiceOrderRequest : Type 0 where
  pub approved : Bool
  pub notes : Option String

-- The parameters of `GET /service-orders`.
pub record ListQuery : Type 0 where
  pub customer_id : String
  pub status : String
  pub sort_by_status : String
  pub hide_completed : String

pub record Caller : Type 0 where
  pub id : String
  pub role : String

abbrev pub unless_blank : String → Option String
unless_blank s = if is_empty s then none else some s

-- The customer whose orders are asked for.
abbrev pub asked_customer : Caller → ListQuery → String
asked_customer caller q = if str_eq caller.role "CUSTOMER" then caller.id else q.customer_id

abbrev pub list_input : Caller → ListQuery → ListInput
list_input caller q = record {
  customer_id = unless_blank (asked_customer caller q);
  status = unless_blank q.status;
  sort_by_status = str_eq q.sort_by_status "true";
  hide_completed = str_eq q.hide_completed "true";
}

unfoldable pub get_all_service_orders_handler : (String → Bool) → Env → Caller → ListQuery → Handler
unfolding answer_with get_all_service_orders
get_all_service_orders_handler is_uuid env caller q w =
    let customer_id = asked_customer caller q in
    if not (is_empty customer_id) && not (is_uuid customer_id)
    then (respond_error_envelope 400 "INVALID_UUID" "Invalid customer_id format", w)
    else answer_with (get_all_service_orders env (list_input caller q))
        (λ views. respond_success 200 (list_payload views)) w

unfoldable pub get_service_order_handler : (String → Bool) → Env → String → Handler
unfolding with_uuid answer_with get_service_order
get_service_order_handler is_uuid env id =
    with_uuid is_uuid id bad_id
      (answer_with (get_service_order env id) (λ view. respond_success 200 (view_payload view)))

unfoldable pub delete_service_order_handler : (String → Bool) → Env → String → Handler
unfolding with_uuid answer_with delete_service_order deletion_reply
delete_service_order_handler is_uuid env id =
    with_uuid is_uuid id bad_id (answer_with (delete_service_order env id none) deletion_reply)

unfoldable pub advance_service_order_status_handler : (String → Bool) → Env → String → Handler
unfolding with_uuid answer_with advance_service_order_status advance_reply
advance_service_order_status_handler is_uuid env id =
    with_uuid is_uuid id bad_id (answer_with (advance_service_order_status env id) advance_reply)

-- After the body is decoded.
unfoldable pub authorize_decoded : Env → String → Caller → AuthorizeServiceOrderRequest → Handler
unfolding answer_with respond_to_authorization order_reply
authorize_decoded env id caller req =
    answer_with
      (respond_to_authorization env (record {
        service_order_id = id;
        approved = req.approved;
        observation = req.notes;
        caller_id = caller.id;
        caller_role = caller.role;
      }))
      (λ output. order_reply output "Service order authorization saga started")

unfoldable pub authorize_service_order_handler :
    (String → Bool) → Env → String → Caller → Option AuthorizeServiceOrderRequest → Handler
unfolding with_uuid authorize_decoded
authorize_service_order_handler is_uuid env id caller body =
    with_uuid is_uuid id bad_id (elim body [
      | none ↦ λ w. (respond_error_envelope 400 "INVALID_REQUEST" "Invalid request body", w)
      | some req ↦ authorize_decoded env id caller req
    ])

unfoldable pub get_service_order_history_handler : (String → Bool) → Env → String → Handler
unfolding with_uuid answer_with get_service_order_history
get_service_order_history_handler is_uuid env id = with_uuid is_uuid id bad_id (
    answer_with (get_service_order_history env id)
      (λ histories. respond_success 200 (history_payload histories)))
